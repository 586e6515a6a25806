-- ===== src/Publisher/Append/Sent.antt =====
-- What the appends of redis_publisher.rs hand to the writer.
use tycho_simulation_server.Base.{
  ℕ, ◌==◌, Option, none, some, List, [], ◌∷◌, Bool, true, false, ◌||◌, Text, ok, err, ◌≡◌, refl,
  sym, subst, ◌∙◌, inl, inr, arith, Bool-cases, checked_succ, if◌then◌else◌, past_map_err,
}
use tycho_simulation_server.Contract.External.{Tycho}
use tycho_simulation_server.Contract.Payload.{Payload}
use tycho_simulation_server.Contract.Boundary.{StreamEntry}
use tycho_simulation_server.Contract.Entry.{from_envelope_at}
use tycho_simulation_server.Publisher.Errors.{WriterError, Published, contract_error}
use tycho_simulation_server.Publisher.State.{PublisherState, take_version, allocate_state_version}
use tycho_simulation_server.Publisher.Append.{
  Attempt, appended, failed, timed_out, Environment, Outcome, give_up, is_stale, after_attempt,
  append_with_retry, record_outcome, append_next, append_entry_locked, commit_version, live_entry,
  append_prepared, append_versioned, append_live_payload_locked, advances_state,
}
use tycho_simulation_server.Publisher.Append.Sequence.{
  AppendOutcome, append_entry-AppendOutcome, append_live-AppendOutcome,
}

module _ {T : Tycho} {W : Type 0} (env : Environment T W) where
  -- The writer took the entry, after the errors.
  abbrev pub DeliveredAfter : List WriterError → ℕ → StreamEntry → Text → W → W → Type 0
  DeliveredAfter [] generation entry id w v = env.send_append generation entry w ≡ (appended id, v)
  DeliveredAfter (e ∷ es) generation entry id w v =
      (u : W) × (env.send_append generation entry w ≡ (failed e, u))
      × DeliveredAfter es generation entry id u v

  -- The entry was sent until the writer acknowledged it with the id, and not again.
  abbrev pub Delivered : ℕ → StreamEntry → Text → W → W → Type 0
  Delivered generation entry id w v =
      (errors : List WriterError) × DeliveredAfter errors generation entry id w v

  RetrySent : PublisherState T → StreamEntry → W → Outcome T W Text → Type 0
  RetrySent s entry w (ok id, t, v) = (t ≡ s) × Delivered s.generation entry id w v
  RetrySent s entry w (err e, t, v) = Unit

  again-RetrySent :
      (s : PublisherState T) (entry : StreamEntry) (e : WriterError) (w u : W)
      (r : Outcome T W Text)
      → env.send_append s.generation entry w ≡ (failed e, u)
      → RetrySent s entry u r
      → RetrySent s entry w r
  unfolding RetrySent
  again-RetrySent s entry e w u (ok id, t, v) q (h, (es, d)) = (h, (e ∷ es, (u, q, d)))
  again-RetrySent s entry e w u (err f, t, v) q h = tt

  after_attempt-RetrySent :
      (over : Bool) (s : PublisherState T) (entry : StreamEntry) (w : W)
      (again : WriterError → W → Outcome T W Text) (r : Attempt × W)
      → env.send_append s.generation entry w ≡ r
      → ((e : WriterError) (u : W) → RetrySent s entry u (again e u))
      → RetrySent s entry w (after_attempt env over s again r)
  unfolding RetrySent after_attempt give_up
  after_attempt-RetrySent over s entry w again (appended id, v) q h = (refl, ([], q))
  after_attempt-RetrySent over s entry w again (timed_out, v) q h = tt
  after_attempt-RetrySent over s entry w again (failed e, v) q h =
      elim (Bool-cases (is_stale e || over)) [
        | inl b ↦ rw b tt
        | inr b ↦ rw b (again-RetrySent s entry e w v (again e v) q (h e v))
      ]

  append_with_retry-RetrySent :
      (clock : List Bool) (last_error : Option WriterError) (s : PublisherState T)
      (entry : StreamEntry) (w : W)
      → RetrySent s entry w (append_with_retry env clock last_error s entry w)
  unfolding append_with_retry RetrySent give_up
  append_with_retry-RetrySent [] last_error s entry w = tt
  append_with_retry-RetrySent (over ∷ clock) last_error s entry w =
      after_attempt-RetrySent over s entry w _ _ refl
        (λ e v. append_with_retry-RetrySent clock (some e) s entry v)

  -- An entry that was appended is the one with the next number, and the writer took it.
  unfoldable pub EntrySent : PublisherState T → StreamEntry → W → Outcome T W Text → Type 0
  EntrySent s entry w (ok id, t, v) =
      (entry.message_seq ≡ s.next_entry_seq) × Delivered s.generation entry id w v
  EntrySent s entry w (err e, t, v) = Unit

  record_outcome-EntrySent :
      (next : ℕ) (s : PublisherState T) (entry : StreamEntry) (w : W) (r : Outcome T W Text)
      → entry.message_seq ≡ s.next_entry_seq
      → RetrySent s entry w r
      → EntrySent s entry w (record_outcome env next r)
  unfolding EntrySent RetrySent record_outcome
  record_outcome-EntrySent next s entry w (ok id, t, v) n (h, d) = (n, d)
  record_outcome-EntrySent next s entry w (err e, t, v) n h = tt

  append_next-EntrySent :
      (clock : List Bool) (s : PublisherState T) (entry : StreamEntry) (w : W) (next : Option ℕ)
      → entry.message_seq ≡ s.next_entry_seq
      → EntrySent s entry w (append_next env clock s entry w next)
  unfolding append_next EntrySent
  append_next-EntrySent clock s entry w none n = tt
  append_next-EntrySent clock s entry w (some next) n =
      record_outcome-EntrySent next s entry w _ n (append_with_retry-RetrySent clock none s entry w)

  pub append_entry-EntrySent :
      (clock : List Bool) (s : PublisherState T) (entry : StreamEntry) (w : W)
      → EntrySent s entry w (append_entry_locked env clock s entry w)
  unfolding append_entry_locked EntrySent
  append_entry-EntrySent clock s entry w =
      elim (Bool-cases (entry.message_seq == s.next_entry_seq)) [
        | inl q ↦ rw q (append_next-EntrySent clock s entry w _ (ground (arith, q)))
        | inr q ↦ rw q tt
      ]

  -- The entry of the payload for the stream, with a number and a state version.
  abbrev pub IsEntryOf : ℕ → PublisherState T → Payload T → ℕ → StreamEntry → Type 0
  IsEntryOf now s p version entry =
      from_envelope_at env.json env.chain_id
        (record { stream_id = s.stream_id; message_seq = s.next_entry_seq; payload = p }) now
        version
      ≡ ok entry

  -- The writer took the entry of the payload, with the next number and the version that is committed
  -- now.
  unfoldable pub LiveSent : ℕ → PublisherState T → Payload T → W → Outcome T W Text → Type 0
  LiveSent now s p w (ok id, t, v) =
      (entry : StreamEntry) × IsEntryOf now s p t.committed_state_version entry
      × Delivered s.generation entry id w v
  LiveSent now s p w (err e, t, v) = Unit

  live_entry-IsEntryOf :
      (now : ℕ) (s : PublisherState T) (p : Payload T) (version : ℕ) (entry : StreamEntry)
      → live_entry env now s p version ≡ ok entry
      → IsEntryOf now s p version entry
  unfolding live_entry
  live_entry-IsEntryOf now s p version entry h = past_map_err contract_error _ (ground (arith, h))

  commit_version-LiveSent :
      (a : Bool) (v now : ℕ) (s : PublisherState T) (p : Payload T) (entry : StreamEntry) (w : W)
      (r : Outcome T W Text)
      → (a ≡ false → v ≡ s.committed_state_version)
      → IsEntryOf now s p v entry
      → EntrySent s entry w r
      → AppendOutcome env false s r
      → LiveSent now s p w (commit_version env a v r)
  unfolding commit_version EntrySent LiveSent AppendOutcome
  commit_version-LiveSent true v now s p entry w (ok id, t, u) c i (n, d) m = (entry, i, d)
  commit_version-LiveSent false v now s p entry w (ok id, t, u) c i (n, d) m =
      (entry, subst (λ x. IsEntryOf now s p x entry) (c refl ∙ sym m.committed) i, d)
  commit_version-LiveSent true v now s p entry w (err e, t, u) c i h m = tt
  commit_version-LiveSent false v now s p entry w (err e, t, u) c i h m = tt

  append_prepared-LiveSent :
      (clock : List Bool) (a : Bool) (v now : ℕ) (s : PublisherState T) (p : Payload T) (w : W)
      (entry : Published StreamEntry)
      → live_entry env now s p v ≡ entry
      → (a ≡ false → v ≡ s.committed_state_version)
      → LiveSent now s p w (append_prepared env clock a v s w entry)
  unfolding append_prepared LiveSent
  append_prepared-LiveSent clock a v now s p w (err e) q c = tt
  append_prepared-LiveSent clock a v now s p w (ok entry) q c =
      commit_version-LiveSent a v now s p entry w _ c (live_entry-IsEntryOf now s p v entry q)
        (append_entry-EntrySent clock s entry w) (append_entry-AppendOutcome env clock s entry w)

  -- A version was taken: nothing else of the state changes.
  VersionTaken : Bool → PublisherState T → Published ℕ × PublisherState T → Type 0
  VersionTaken a s (ok v, u) =
      ((n : ℕ) × (u ≡ record s { next_state_version = n }))
      × (a ≡ false → v ≡ u.committed_state_version)
  VersionTaken a s (err e, u) = Unit

  append_versioned-LiveSent :
      (clock : List Bool) (now : ℕ) (s : PublisherState T) (p : Payload T) (w : W)
      (r : Published ℕ × PublisherState T)
      → VersionTaken (advances_state p) s r
      → LiveSent now s p w (append_versioned env clock now p w r)
  unfolding append_versioned LiveSent VersionTaken
  append_versioned-LiveSent clock now s p w (err e, u) h = tt
  append_versioned-LiveSent clock now s p w (ok v, u) ((n, q), c) =
      subst
        (λ t.
          LiveSent now t p w
            (append_prepared env clock (advances_state p) v u w (live_entry env now u p v)))
        q (append_prepared-LiveSent clock (advances_state p) v now u p w _ refl c)

  take_version-VersionTaken :
      (s : PublisherState T) (v : Option ℕ) → VersionTaken true s (take_version s v)
  unfolding VersionTaken take_version
  take_version-VersionTaken s none = tt
  take_version-VersionTaken s (some n) = ((n, refl), λ h. cc h)

  version-VersionTaken :
      (a : Bool) (s : PublisherState T)
      → VersionTaken a s (if a then allocate_state_version s else (ok s.committed_state_version, s))
  unfolding VersionTaken allocate_state_version
  version-VersionTaken true s = take_version-VersionTaken s (checked_succ s.next_state_version)
  version-VersionTaken false s = ((s.next_state_version, refl), λ h. refl)

  append_live-LiveSent :
      (clock : List Bool) (now : ℕ) (s : PublisherState T) (p : Payload T) (w : W)
      → LiveSent now s p w (append_live_payload_locked env clock now s p w)
  unfolding append_live_payload_locked
  append_live-LiveSent clock now s p w =
      append_versioned-LiveSent clock now s p w _ (version-VersionTaken (advances_state p) s)

  -- A live payload that is appended was sent until the writer took it, and no more, as the entry of
  -- the next sequence number and of the version that is committed afterwards. That version is, for an
  -- update, above every version allocated before, failed appends included; other payloads leave it.
  -- A payload that is not appended leaves the sequence number, the committed version and the latest
  -- entry as they were.
  pub append_live-Sent :
      (clock : List Bool) (now : ℕ) (s : PublisherState T) (p : Payload T) (w : W)
      → AppendOutcome env (advances_state p) s (append_live_payload_locked env clock now s p w)
        × LiveSent now s p w (append_live_payload_locked env clock now s p w)
  append_live-Sent clock now s p w =
      (append_live-AppendOutcome env clock now s p w, append_live-LiveSent clock now s p w)
