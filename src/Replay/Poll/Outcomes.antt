-- ===== src/Replay/Poll/Outcomes.antt =====
-- What an empty read means: every case of the position of the checkpoint in the stream.
use tycho_simulation_server.Base.{
  ℕ, ◌+◌, ◌≤◌, ◌<◌, ◌≡◌, ◌∙◌, ap, ltb, leb, ◌==◌, some, Text, max_u64, ok, err, arith,
  if◌then◌else◌, ok_or, checked_succ,
}
use tycho_simulation_server.Contract.Boundary.{redis_entry_id}
use tycho_simulation_server.Replay.Errors.{
  Replay, redis_gap, moved_backwards, first_entry_after_expected, last_entry_not_after,
  sequence_overflow,
}
use tycho_simulation_server.Replay.EntryId.{
  parse_redis_entry_id, parts, parse_redis_entry_id-redis_entry_id,
}
use tycho_simulation_server.Replay.Checkpoint.{ReplayCheckpoint}
use tycho_simulation_server.Replay.Checkpoint.Batches.{IsCanonical}
use tycho_simulation_server.Replay.Poll.{
  StreamInfo, EmptyPollAction, caught_up, pending, redis_empty_poll_action, retained_action,
}

-- The stream has generated entry `n` and retains the entries from `first` to `last`, all of the
-- checkpoint's generation.
abbrev pub retaining : ReplayCheckpoint → ℕ → ℕ → ℕ → StreamInfo
retaining c n first last = record {
  last_generated_entry_id = redis_entry_id c.boundary.generation n;
  first_entry_id = some (redis_entry_id c.boundary.generation first);
  last_entry_id = some (redis_entry_id c.boundary.generation last);
}

-- The answer, by the position of the checkpoint.
abbrev pub expected_action : ReplayCheckpoint → ℕ → ℕ → ℕ → Replay EmptyPollAction
expected_action c n first last =
    let k = c.last_message_seq in
    let id = redis_entry_id c.boundary.generation in
    if ltb n k
    then err (redis_gap (moved_backwards c.entry_id (id n)))
    else if n == k
    then ok caught_up
    else if ltb (k + 1) first
    then err (redis_gap (first_entry_after_expected (id first) (id (k + 1))))
    else if leb last k
    then err (redis_gap (last_entry_not_after (id n) c.entry_id (id last)))
    else ok pending

module _ (c : ReplayCheckpoint) (canonical : IsCanonical c) (n first last : ℕ)
    (g_fits : c.boundary.generation ≤ max_u64) (k_fits : c.last_message_seq ≤ max_u64)
    (n_fits : n ≤ max_u64) (first_fits : first ≤ max_u64) (last_fits : last ≤ max_u64) where
  abbrev id : ℕ → Text
  id seq = redis_entry_id c.boundary.generation seq

  parse :
      (seq : ℕ)
      → seq ≤ max_u64
      → parse_redis_entry_id (id seq) ≡ ok (parts c.boundary.generation seq)
  parse seq h = parse_redis_entry_id-redis_entry_id c.boundary.generation seq g_fits h

  retained_eq :
      c.last_message_seq < max_u64
      → retained_action c
          (parts c.boundary.generation c.last_message_seq)
          (retaining c n first last)
        ≡ (if ltb (c.last_message_seq + 1) first
            then err
                (redis_gap (first_entry_after_expected (id first) (id (c.last_message_seq + 1))))
            else if leb last c.last_message_seq
            then err (redis_gap (last_entry_not_after (id n) c.entry_id (id last)))
            else ok pending)
  unfolding retained_action
  retained_eq room =
      let next : ok_or (checked_succ c.last_message_seq) (redis_gap sequence_overflow)
          ≡ ok (c.last_message_seq + 1) =
        ground arith in
      rw next (
        rw (parse (c.last_message_seq + 1) (omega arith))
          (rw (parse first first_fits) (rw (parse last last_fits) (ground arith))))

  position : parse_redis_entry_id c.entry_id ≡ ok (parts c.boundary.generation c.last_message_seq)
  position = ap parse_redis_entry_id canonical ∙ parse c.last_message_seq k_fits

  -- An empty read of a stream of the checkpoint's generation has five outcomes, by the position of
  -- the checkpoint: behind the last generated entry it is a gap; at it the consumer is caught up;
  -- before it the next entry must still be retained, and then it is pending.
  pub redis_empty_poll_action-expected :
      redis_empty_poll_action c (some (retaining c n first last)) ≡ expected_action c n first last
  unfolding redis_empty_poll_action
  redis_empty_poll_action-expected = rw position (rw (parse n n_fits) (ground (arith, retained_eq)))
