-- ===== src/Publisher/Commit/Adoption.antt =====
-- How `publish_recovery` of redis_publisher.rs leaves the publisher.
use tycho_simulation_server.Base.{
  ℕ, ◌<◌, Option, none, some, List, [], ensure, refuse, Bool, true, Text, ok, err, ◌≡◌, ◌≢◌, refl,
  subst, sym, arith, Always, Always-weaken, Always-bind, ◌⊎◌, inl, inr,
}
use tycho_simulation_server.Contract.External.{Tycho}
use tycho_simulation_server.Contract.Boundary.{StreamEntry}
use tycho_simulation_server.Publisher.Errors.{
  retired, PublishError, Published, recovery_cancelled, reservation_not_active,
}
use tycho_simulation_server.Publisher.State.{PublisherState}
use tycho_simulation_server.Publisher.Append.{Environment, Outcome}
use tycho_simulation_server.Publisher.Commit.Kept.{
  ensure_active-active, Held, Held-trans, append_all-Held,
}
use tycho_simulation_server.Publisher.Append.Sequence.{
  Versioned, VersionOutcome, allocate-VersionOutcome,
}
use tycho_simulation_server.Publisher.Gate.{Publisher, Clock}
use tycho_simulation_server.Publisher.Drain.{drain_pending_payloads_locked}
use tycho_simulation_server.Publisher.Drain.Requeue.{GateOutcome, drain-GateOutcome}
use tycho_simulation_server.Publisher.Lease.{replay_boundary_locked}
use tycho_simulation_server.Publisher.Fragments.{RecoveryFragment, prepare_recovery_fragments}
use tycho_simulation_server.Publisher.Recovery.{RecoveryTransaction, recovery_entries}
use tycho_simulation_server.Contract.Payload.{Payload}
use tycho_simulation_server.Publisher.Commit.Sent.{Appended, AllOutcome, append_all-AllOutcome}
use tycho_simulation_server.Publisher.Commit.{
  CancelPoint, at_start, past_lock, is_reserved_for, RecoveryPublication, RecoveryCounts,
  ensure_active_publisher, checked_fragments, failed_with, finish_drained, finish_appended,
  total_size, measured_entries, publish_entries, publish_versioned, publish_checked,
  publish_recovery,
}

module _ {T : Tycho} {W : Type 0} (env : Environment T W) (digest_bytes : Text → Text)
    (clock : Clock) (arrivals : List (List (Payload T))) (cancelled : CancelPoint → Bool) where
  -- The entries are those of the transaction for the version, numbered from the next one.
  pub record Prepared (tx : RecoveryTransaction T) (p : Publisher T) (version : ℕ)
      (entries : List StreamEntry) : Type 0 where
    pub fragments : List RecoveryFragment
    pub whole : prepare_recovery_fragments digest_bytes tx.replacement_json ≡ ok fragments
    pub made :
        recovery_entries env digest_bytes
          (clock.now p.state.next_entry_seq)
          tx
          (record {
            stream_id = p.state.stream_id;
            next_entry_seq = p.state.next_entry_seq;
            state_version = version;
          })
          fragments
        ≡ ok entries

  abbrev pub versioned : ℕ → Publisher T → PublisherState T
  versioned version p = record p.state { next_state_version = version }

  -- All the entries of the transaction went out, the last one with the id `commit_id`, their version
  -- was adopted, and the queue was drained behind them.
  pub record Adopted (tx : RecoveryTransaction T) (p : Publisher T) (w : W) (q : Publisher T)
      (v : W) : Type 0 where
    pub version : ℕ
    pub new_version : p.state.next_state_version < version
    pub entries : List StreamEntry
    pub prepared : Prepared tx p version entries
    pub commit_id : Text
    pub behind : PublisherState T
    pub writer : W
    pub sent : Appended env entries none (versioned version p) w (some commit_id) behind writer
    pub held : Held (versioned version p) behind
    pub drained :
        q
        ≡ (drain_pending_payloads_locked env clock arrivals
            (record p { state = record behind { committed_state_version = version } })
            writer).1
    pub drained_writer :
        v
        ≡ (drain_pending_payloads_locked env clock arrivals
            (record p { state = record behind { committed_state_version = version } })
            writer).2

  unfoldable pub CommitOutcome :
      RecoveryTransaction T
      → Publisher T
      → W
      → Published RecoveryPublication × Publisher T × W
      → Type 0
  CommitOutcome tx p w (ok x, q, v) =
      (a : Adopted tx p w q v) × (x.recovery_id ≡ tx.recovery_id)
      × (x.target_state_version ≡ a.version)
      × (x.commit_entry_id ≡ a.commit_id)
      × (q.gate.open_recovery_id ≡ none)
      × (q.gate.pending_payloads ≡ [])
  CommitOutcome tx p w (err e, q, v) =
      ((q.gate ≡ p.gate) × Held p.state q.state) ⊎ Adopted tx p w q v

  boundary-CommitOutcome :
      (tx : RecoveryTransaction T) (p : Publisher T) (w : W) (q : Publisher T) (v : W)
      (r : Published RecoveryPublication) (a : Adopted tx p w q v)
      → (q.gate.open_recovery_id ≡ none) × (q.gate.pending_payloads ≡ [])
      → Always
          (λ x.
            (x.recovery_id ≡ tx.recovery_id)
            × (x.target_state_version ≡ a.version)
            × (x.commit_entry_id ≡ a.commit_id))
          r
      → CommitOutcome tx p w (r, q, v)
  unfolding CommitOutcome
  boundary-CommitOutcome tx p w q v (ok x) a (o, n) (i, t, c) = (a, i, t, c, o, n)
  boundary-CommitOutcome tx p w q v (err e) a m h = inr a

  finish_drained-CommitOutcome :
      (tx : RecoveryTransaction T) (p : Publisher T) (w : W) (counts : RecoveryCounts)
      (r : Published Unit × Publisher T × W) (a : Adopted tx p w r.1 r.2)
      → GateOutcome env r
      → CommitOutcome tx p w (
          finish_drained env digest_bytes clock arrivals cancelled tx.recovery_id a.version counts
            a.commit_id r)
  unfolding finish_drained GateOutcome CommitOutcome
  finish_drained-CommitOutcome tx p w counts (ok _, q, v) a m =
      boundary-CommitOutcome tx p w q v _ a m
        (Always-bind _ (replay_boundary_locked env q.state) _ (λ b _. (refl, refl, refl)))
  finish_drained-CommitOutcome tx p w counts (err e, q, v) a m = inr a

  failed_with-same :
      (e : PublishError) (p : Publisher T) (s : PublisherState T)
      → ((failed_with e (record p { state = s })).gate ≡ p.gate)
        × ((failed_with e (record p { state = s })).state ≡ s)
  unfolding failed_with
  failed_with-same e p s = (ground arith, ground arith)

  versioned-Held :
      (version : ℕ) (p : Publisher T)
      → p.state.next_state_version < version
      → Held p.state (versioned version p)
  versioned-Held version p v = record { committed = refl; allocated = omega (arith, v) }

  finish_appended-CommitOutcome :
      (tx : RecoveryTransaction T) (p : Publisher T) (w : W) (version : ℕ) (counts : RecoveryCounts)
      (es : List StreamEntry) (r : Outcome T W (Option Text))
      → p.state.next_state_version < version
      → Prepared tx p version es
      → Held (versioned version p) r.1
      → AllOutcome env es none (versioned version p) w r
      → CommitOutcome tx p w (
          finish_appended env digest_bytes clock arrivals cancelled tx.recovery_id version counts
            (record p { state = versioned version p })
            r)
  unfolding finish_appended CommitOutcome GateOutcome AllOutcome
  finish_appended-CommitOutcome tx p w version counts es (err e, t, v) n m h a = inl (
    (failed_with-same e p t).0,
    subst (Held p.state) (sym (failed_with-same e p t).1)
        (Held-trans (versioned-Held version p n) h),
  )
  finish_appended-CommitOutcome tx p w version counts es (ok none, t, v) n m h a =
      inl (refl, Held-trans (versioned-Held version p n) h)
  finish_appended-CommitOutcome tx p w version counts es (ok (some commit), t, v) n m h a =
      let q = record p { state = record t { committed_state_version = version } } in
      finish_drained-CommitOutcome tx p w counts
        (drain_pending_payloads_locked env clock arrivals q v)
        (record {
          version = version;
          new_version = n;
          entries = es;
          prepared = m;
          commit_id = commit;
          behind = t;
          writer = v;
          sent = a;
          held = h;
          drained = refl;
          drained_writer = refl;
        })
        (drain-GateOutcome env clock arrivals q v)

  publish_entries-CommitOutcome :
      (tx : RecoveryTransaction T) (p : Publisher T) (w : W) (version : ℕ)
      (es : Published (List StreamEntry × RecoveryCounts))
      → p.state.next_state_version < version
      → Always (λ r. Prepared tx p version r.0) es
      → CommitOutcome tx p w (
          publish_entries env digest_bytes clock arrivals cancelled tx.recovery_id version
            (record p { state = versioned version p })
            w
            es)
  unfolding publish_entries CommitOutcome
  publish_entries-CommitOutcome tx p w version (err e) n m = inl (refl, versioned-Held version p n)
  publish_entries-CommitOutcome tx p w version (ok (es, counts)) n m =
      finish_appended-CommitOutcome tx p w version counts es _ n m
        (append_all-Held env digest_bytes clock arrivals cancelled _ none es _ w)
        (append_all-AllOutcome env digest_bytes clock arrivals cancelled _ none es _ w)

  measured_entries-Prepared :
      (tx : RecoveryTransaction T) (fs : List RecoveryFragment) (p : Publisher T) (version : ℕ)
      → prepare_recovery_fragments digest_bytes tx.replacement_json ≡ ok fs
      → Always
          (λ r. Prepared tx p version r.0)
          (measured_entries env digest_bytes clock arrivals cancelled tx fs version
            (versioned version p))
  unfolding measured_entries
  measured_entries-Prepared tx fs p version h =
      Always-bind _
        (recovery_entries env digest_bytes (clock.now p.state.next_entry_seq) tx
          (record {
            stream_id = p.state.stream_id;
            next_entry_seq = p.state.next_entry_seq;
            state_version = version;
          })
          fs)
        _
        (λ es q.
          Always-bind _ (total_size env digest_bytes clock arrivals cancelled 0 es) _
            (λ n _. record { fragments = fs; whole = h; made = q }))

  publish_versioned-CommitOutcome :
      (tx : RecoveryTransaction T) (fs : List RecoveryFragment) (p : Publisher T) (w : W)
      (r : Published ℕ × PublisherState T)
      → prepare_recovery_fragments digest_bytes tx.replacement_json ≡ ok fs
      → VersionOutcome env true p.state r
      → CommitOutcome tx p w
          (publish_versioned env digest_bytes clock arrivals cancelled tx fs p w r)
  unfolding publish_versioned VersionOutcome Versioned CommitOutcome
  publish_versioned-CommitOutcome tx fs p w (err e, s) h q =
      inl
        (refl, subst (Held p.state) (sym q) (record { committed = refl; allocated = omega arith }))
  publish_versioned-CommitOutcome tx fs p w (ok v, s) h (n, q) =
      subst
        (λ z. CommitOutcome tx p w (
          publish_entries env digest_bytes clock arrivals cancelled tx.recovery_id v
            (record p { state = z }) w
            (measured_entries env digest_bytes clock arrivals cancelled tx fs v z)))
        (sym q)
        (publish_entries-CommitOutcome tx p w v _ (omega (arith, n))
          (measured_entries-Prepared tx fs p v h))

  pub publish_checked-CommitOutcome :
      (tx : RecoveryTransaction T) (p : Publisher T) (w : W)
      (fs : Published (List RecoveryFragment))
      → Always (λ x. prepare_recovery_fragments digest_bytes tx.replacement_json ≡ ok x) fs
      → CommitOutcome tx p w (publish_checked env digest_bytes clock arrivals cancelled tx p w fs)
  unfolding publish_checked CommitOutcome
  publish_checked-CommitOutcome tx p w (err e) h =
      inl (refl, record { committed = refl; allocated = omega arith })
  publish_checked-CommitOutcome tx p w (ok fs) h =
      publish_versioned-CommitOutcome tx fs p w _ h (allocate-VersionOutcome env p.state)

  -- Past the checks, the fragments are those of the replacement and the publisher is not retired.
  pub record FragmentsChecked (tx : RecoveryTransaction T) (p : Publisher T)
      (fs : List RecoveryFragment) : Type 0 where
    pub whole : prepare_recovery_fragments digest_bytes tx.replacement_json ≡ ok fs
    pub live : p.state.mode ≢ retired

  pub checked_fragments-FragmentsChecked :
      (tx : RecoveryTransaction T) (p : Publisher T)
      → Always
          (FragmentsChecked tx p)
          (checked_fragments env digest_bytes clock arrivals cancelled tx p)
  unfolding checked_fragments
  checked_fragments-FragmentsChecked tx p =
      Always-bind _ (refuse (cancelled at_start) recovery_cancelled) _ (λ _ _.
        Always-bind _ (prepare_recovery_fragments digest_bytes tx.replacement_json) _ (λ fs f.
          Always-bind _
            (ensure (is_reserved_for p.gate.open_recovery_id tx.recovery_id)
              (reservation_not_active tx.recovery_id))
            _
            (λ _ _. Always-bind _ (ensure_active_publisher p.state) _ (λ u h.
              Always-bind _ (refuse (cancelled past_lock) recovery_cancelled) _ (λ _ _. record {
                whole = f;
                live = λ r. cc (r, ensure_active-active p.state u h);
              })))))

  -- A recovery that is published took a version above every version allocated before. Each of its
  -- entries, as they are prepared for that version, was sent until the writer took it, and no more,
  -- the last one with the id that is returned; then the version was adopted as the committed one
  -- and the queue drained. The gate is closed and the queue empty. A recovery that fails has left the
  -- gate, the queue and the committed version as they were, or it failed behind its commit.
  pub publish_recovery-CommitOutcome :
      (tx : RecoveryTransaction T) (p : Publisher T) (w : W)
      → CommitOutcome tx p w (publish_recovery env digest_bytes clock arrivals cancelled tx p w)
  unfolding publish_recovery
  publish_recovery-CommitOutcome tx p w =
      publish_checked-CommitOutcome tx p w
        (checked_fragments env digest_bytes clock arrivals cancelled tx p)
        (Always-weaken {P = FragmentsChecked tx p} (λ fs c. c.whole) _
          (checked_fragments-FragmentsChecked tx p))
