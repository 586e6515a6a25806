-- ===== src/Publisher/Append/Sequence.antt =====
-- What an append of redis_publisher.rs does to the sequence numbers and to the state versions.
use tycho_simulation_server.Base.{
  ℕ, ◌+◌, ◌≤◌, ◌<◌, ◌==◌, Option, none, some, List, [], ◌∷◌, Bool, true, false, ◌||◌, if◌then◌else◌,
  Text, ok, err, ◌≡◌, refl, ap, sym, subst, ◌∙◌, inl, inr, arith, Bool-cases,
}
use tycho_simulation_server.Contract.External.{Tycho}
use tycho_simulation_server.Contract.Payload.{Payload}
use tycho_simulation_server.Contract.Boundary.{StreamEntry}
use tycho_simulation_server.Publisher.Errors.{WriterError, Published}
use tycho_simulation_server.Publisher.State.{
  PublisherState, record_append_success, record_append_failure, take_version,
  allocate_state_version,
}
use tycho_simulation_server.Publisher.Append.{
  Attempt, appended, failed, timed_out, Environment, Outcome, give_up, is_stale, after_attempt,
  append_with_retry, record_outcome, append_next, append_entry_locked, commit_version,
  append_prepared, append_versioned, append_live_payload_locked, advances_state,
}

-- What stays when nothing was appended.
pub record Unmoved {T : Tycho} (s t : PublisherState T) : Type 0 where
  pub mode : t.mode ≡ s.mode
  pub generation : t.generation ≡ s.generation
  pub snapshot_id : t.snapshot_id ≡ s.snapshot_id
  pub next_entry_seq : t.next_entry_seq ≡ s.next_entry_seq
  pub committed : t.committed_state_version ≡ s.committed_state_version
  pub allocated : s.next_state_version ≤ t.next_state_version
  pub latest_entry_id : t.latest_entry_id ≡ s.latest_entry_id
  pub last_error : t.last_error ≡ s.last_error
  pub failures : s.append_failure_count ≤ t.append_failure_count

-- What has changed when one entry was appended; an update has a new version.
pub record Moved {T : Tycho} (advances : Bool) (id : Text) (s t : PublisherState T) : Type 0 where
  pub mode : t.mode ≡ s.mode
  pub generation : t.generation ≡ s.generation
  pub snapshot_id : t.snapshot_id ≡ s.snapshot_id
  pub next_entry_seq : t.next_entry_seq ≡ s.next_entry_seq + 1
  pub allocated : s.next_state_version ≤ t.next_state_version
  pub committed :
      if advances
      then ((s.next_state_version < t.committed_state_version)
          × (t.committed_state_version ≤ t.next_state_version))
      else (t.committed_state_version ≡ s.committed_state_version)
  pub latest_entry_id : t.latest_entry_id ≡ some id
  pub last_error : t.last_error ≡ none

module _ {T : Tycho} {W : Type 0} (env : Environment T W) where
  RetryOutcome : PublisherState T → Outcome T W Text → Type 0
  RetryOutcome s (ok id, t, w) = t ≡ s
  RetryOutcome s (err e, t, w) = t ≡ record_append_failure s

  after_attempt-RetryOutcome :
      (over : Bool) (s : PublisherState T) (again : WriterError → W → Outcome T W Text)
      (r : Attempt × W)
      → ((e : WriterError) (w : W) → RetryOutcome s (again e w))
      → RetryOutcome s (after_attempt env over s again r)
  unfolding RetryOutcome after_attempt give_up
  after_attempt-RetryOutcome over s again (appended id, w) h = refl
  after_attempt-RetryOutcome over s again (timed_out, w) h = refl
  after_attempt-RetryOutcome over s again (failed e, w) h = elim (Bool-cases (is_stale e || over)) [
    | inl q ↦ rw q refl
    | inr q ↦ rw q (h e w)
  ]

  append_with_retry-RetryOutcome :
      (clock : List Bool) (last_error : Option WriterError) (s : PublisherState T)
      (entry : StreamEntry) (w : W)
      → RetryOutcome s (append_with_retry env clock last_error s entry w)
  unfolding append_with_retry RetryOutcome give_up
  append_with_retry-RetryOutcome [] last_error s entry w = refl
  append_with_retry-RetryOutcome (over ∷ clock) last_error s entry w =
      after_attempt-RetryOutcome over s _ _
        (λ e v. append_with_retry-RetryOutcome clock (some e) s entry v)

  pub Unmoved-refl : (s : PublisherState T) → Unmoved s s
  Unmoved-refl s = record {
    mode = refl;
    generation = refl;
    snapshot_id = refl;
    next_entry_seq = refl;
    committed = refl;
    allocated = omega arith;
    latest_entry_id = refl;
    last_error = refl;
    failures = omega arith;
  }

  failure-Unmoved : (s : PublisherState T) → Unmoved s (record_append_failure s)
  unfolding record_append_failure
  failure-Unmoved s = record {
    mode = refl;
    generation = refl;
    snapshot_id = refl;
    next_entry_seq = refl;
    committed = refl;
    allocated = omega arith;
    latest_entry_id = refl;
    last_error = refl;
    failures = ground arith;
  }

  unfoldable pub AppendOutcome : Bool → PublisherState T → Outcome T W Text → Type 0
  AppendOutcome advances s (ok id, t, w) = Moved advances id s t
  AppendOutcome advances s (err e, t, w) = Unmoved s t

  record_outcome-AppendOutcome :
      (next : ℕ) (s : PublisherState T) (r : Outcome T W Text)
      → next ≡ s.next_entry_seq + 1
      → RetryOutcome s r
      → AppendOutcome false s (record_outcome env next r)
  unfolding AppendOutcome RetryOutcome record_outcome record_append_success
  record_outcome-AppendOutcome next s (ok id, t, w) n h = record {
    mode = ap (λ u. u.mode) h;
    generation = ap (λ u. u.generation) h;
    snapshot_id = ap (λ u. u.snapshot_id) h;
    next_entry_seq = n;
    allocated = omega (arith, ap (λ u. u.next_state_version) h);
    committed = ap (λ u. u.committed_state_version) h;
    latest_entry_id = refl;
    last_error = refl;
  }
  record_outcome-AppendOutcome next s (err e, t, w) n h =
      subst (Unmoved s) (sym h) (failure-Unmoved s)

  append_next-AppendOutcome :
      (clock : List Bool) (s : PublisherState T) (entry : StreamEntry) (w : W) (next : Option ℕ)
      → ((n : ℕ) → next ≡ some n → n ≡ s.next_entry_seq + 1)
      → AppendOutcome false s (append_next env clock s entry w next)
  unfolding append_next AppendOutcome
  append_next-AppendOutcome clock s entry w none h = Unmoved-refl s
  append_next-AppendOutcome clock s entry w (some n) h =
      record_outcome-AppendOutcome n s _ (h n refl)
        (append_with_retry-RetryOutcome clock none s entry w)

  pub append_entry-AppendOutcome :
      (clock : List Bool) (s : PublisherState T) (entry : StreamEntry) (w : W)
      → AppendOutcome false s (append_entry_locked env clock s entry w)
  unfolding append_entry_locked AppendOutcome
  append_entry-AppendOutcome clock s entry w =
      elim (Bool-cases (entry.message_seq == s.next_entry_seq)) [
        | inl q ↦ rw q (append_next-AppendOutcome clock s entry w _ (λ n r. ground (arith, q, r)))
        | inr q ↦ rw q (Unmoved-refl s)
      ]

  -- `u` is the state in which the version was taken, from `s`.
  unfoldable pub Versioned : Bool → ℕ → PublisherState T → PublisherState T → Type 0
  Versioned true version s u =
      (version ≡ s.next_state_version + 1) × (u ≡ record s { next_state_version = version })
  Versioned false version s u = u ≡ s

  Versioned-Unmoved : (a : Bool) (v : ℕ) (s u : PublisherState T) → Versioned a v s u → Unmoved s u
  unfolding Versioned
  Versioned-Unmoved true v s u (n, q) = subst (Unmoved s) (sym q) (record {
    mode = refl;
    generation = refl;
    snapshot_id = refl;
    next_entry_seq = refl;
    committed = refl;
    allocated = omega (arith, n);
    latest_entry_id = refl;
    last_error = refl;
    failures = omega arith;
  })
  Versioned-Unmoved false v s u q = subst (Unmoved s) (sym q) (Unmoved-refl s)

  pub Unmoved-trans : {s t u : PublisherState T} → Unmoved s t → Unmoved t u → Unmoved s u
  Unmoved-trans a b = record {
    mode = b.mode ∙ a.mode;
    generation = b.generation ∙ a.generation;
    snapshot_id = b.snapshot_id ∙ a.snapshot_id;
    next_entry_seq = b.next_entry_seq ∙ a.next_entry_seq;
    committed = b.committed ∙ a.committed;
    allocated = omega (arith, a.allocated, b.allocated);
    latest_entry_id = b.latest_entry_id ∙ a.latest_entry_id;
    last_error = b.last_error ∙ a.last_error;
    failures = omega (arith, a.failures, b.failures);
  }

  commit_version-AppendOutcome :
      (a : Bool) (v : ℕ) (s u : PublisherState T) (r : Outcome T W Text)
      → Versioned a v s u
      → AppendOutcome false u r
      → AppendOutcome a s (commit_version env a v r)
  unfolding commit_version AppendOutcome Versioned
  commit_version-AppendOutcome true v s u (ok id, t, w) (n, q) h = record {
    mode = h.mode ∙ ap (λ x. x.mode) q;
    generation = h.generation ∙ ap (λ x. x.generation) q;
    snapshot_id = h.snapshot_id ∙ ap (λ x. x.snapshot_id) q;
    next_entry_seq = h.next_entry_seq ∙ ap (λ x. x.next_entry_seq + 1) q;
    allocated = omega (arith, n, h.allocated, ap (λ x. x.next_state_version) q);
    committed = (omega (arith, n), omega (arith, h.allocated, ap (λ x. x.next_state_version) q));
    latest_entry_id = h.latest_entry_id;
    last_error = h.last_error;
  }
  commit_version-AppendOutcome false v s u (ok id, t, w) q h = subst (λ x. Moved false id x t) q h
  commit_version-AppendOutcome true v s u (err e, t, w) q h =
      Unmoved-trans (Versioned-Unmoved true v s u q) h
  commit_version-AppendOutcome false v s u (err e, t, w) q h =
      Unmoved-trans (Versioned-Unmoved false v s u q) h

  append_prepared-AppendOutcome :
      (clock : List Bool) (a : Bool) (v : ℕ) (s u : PublisherState T) (w : W)
      (entry : Published StreamEntry)
      → Versioned a v s u
      → AppendOutcome a s (append_prepared env clock a v u w entry)
  unfolding append_prepared AppendOutcome
  append_prepared-AppendOutcome clock a v s u w (err e) q = Versioned-Unmoved a v s u q
  append_prepared-AppendOutcome clock a v s u w (ok entry) q =
      commit_version-AppendOutcome a v s u _ q (append_entry-AppendOutcome clock u entry w)

  unfoldable pub VersionOutcome : Bool → PublisherState T → Published ℕ × PublisherState T → Type 0
  VersionOutcome a s (ok v, u) = Versioned a v s u
  VersionOutcome a s (err e, u) = u ≡ s

  append_versioned-AppendOutcome :
      (clock : List Bool) (now : ℕ) (p : Payload T) (s : PublisherState T) (w : W)
      (r : Published ℕ × PublisherState T)
      → VersionOutcome (advances_state p) s r
      → AppendOutcome (advances_state p) s (append_versioned env clock now p w r)
  unfolding append_versioned AppendOutcome VersionOutcome
  append_versioned-AppendOutcome clock now p s w (err e, u) q =
      subst (Unmoved s) (sym q) (Unmoved-refl s)
  append_versioned-AppendOutcome clock now p s w (ok v, u) q =
      append_prepared-AppendOutcome clock (advances_state p) v s u w _ q

  take_version-VersionOutcome :
      (s : PublisherState T) (v : Option ℕ)
      → ((n : ℕ) → v ≡ some n → n ≡ s.next_state_version + 1)
      → VersionOutcome true s (take_version s v)
  unfolding take_version VersionOutcome Versioned
  take_version-VersionOutcome s none h = refl
  take_version-VersionOutcome s (some n) h = (h n refl, refl)

  pub allocate-VersionOutcome :
      (s : PublisherState T) → VersionOutcome true s (allocate_state_version s)
  unfolding allocate_state_version
  allocate-VersionOutcome s = take_version-VersionOutcome s _ (λ n r. ground (arith, r))

  version-VersionOutcome :
      (a : Bool) (s : PublisherState T)
      → VersionOutcome a s
          (if a then allocate_state_version s else (ok s.committed_state_version, s))
  unfolding VersionOutcome Versioned
  version-VersionOutcome true s = allocate-VersionOutcome s
  version-VersionOutcome false s = refl

  pub append_live-AppendOutcome :
      (clock : List Bool) (now : ℕ) (s : PublisherState T) (p : Payload T) (w : W)
      → AppendOutcome (advances_state p) s (append_live_payload_locked env clock now s p w)
  unfolding append_live_payload_locked
  append_live-AppendOutcome clock now s p w =
      append_versioned-AppendOutcome clock now p s w _ (version-VersionOutcome (advances_state p) s)
