-- ===== src/Publisher/Lease/Kept.antt =====
-- What the lease calls of redis_publisher.rs keep.
use tycho_simulation_server.Base.{
  ◌+◌, ℕ, List, Bool, true, false, Option, none, some, Text, ◌≤◌, length, subst, sym, Result, ok,
  err, ◌≡◌, ◌≢◌, refl, arith, Bool-cases, inl, inr, ◌||◌, not, ◌&&◌,
}
use tycho_simulation_server.Contract.External.{Tycho}
use tycho_simulation_server.Contract.Backend.{Backend}
use tycho_simulation_server.Contract.Boundary.{ReplayBoundary}
use tycho_simulation_server.Publisher.Redis.{Fields}
use tycho_simulation_server.Publisher.Fence.{WriterInspection}
use tycho_simulation_server.Publisher.Errors.{
  Mode, passive, active, retired, unhealthy, WriterError, PublishError, Published,
}
use tycho_simulation_server.Publisher.State.{
  PublisherState, record_retired, record_unhealthy, activate_generation,
}
use tycho_simulation_server.Publisher.Append.{Environment}
use tycho_simulation_server.Publisher.Gate.{Publisher, max_pending_recovery_payloads}
use tycho_simulation_server.Publisher.Keeps.{Keeps, Keeps-refl}
use tycho_simulation_server.Publisher.Lease.{
  retire, fence_failed, verified, verify_active, verify_in, verify_writer_fence_locked, reactivate,
  renew_unhealthy, renew_in, renew_lease, resync_stream_tail_locked, adopt_tail, self_fence,
  promotion_failed, promoted, promote_marked, promote_locked, reset_gate, recover_writer,
  generation_marker_template_fields, is_retired, is_unhealthy,
}

-- A call on a publisher that is not retired.
pub Keeps-live :
    {T : Tycho} (p q : Publisher T)
    → p.state.mode ≢ retired
    → (p.state.committed_state_version ≤ p.state.next_state_version
        → q.state.committed_state_version ≤ q.state.next_state_version)
    → q.gate ≡ p.gate
    → Keeps p q
Keeps-live p q live o g = record {
  state = record { ordered = o; stays_retired = λ r. absurd (live r) };
  bounded =
      λ b. subst (λ x. length x.pending_payloads ≤ max_pending_recovery_payloads + 1) (sym g) b;
}

module _ {T : Tycho} where
  verified-Keeps :
      (reply : Result WriterError Unit) (p : Publisher T)
      → p.state.mode ≢ retired
      → Keeps p (verified reply p).1
  unfolding verified fence_failed retire record_retired record_unhealthy
  verified-Keeps (ok _) p live = Keeps-live p _ live (λ o. o) refl
  verified-Keeps (err e) p live = Keeps-live p _ live (λ o. ground (arith, o)) (ground arith)

  verify_active-Keeps :
      (e : Option PublishError) (reply : Result WriterError Unit) (p : Publisher T)
      → p.state.mode ≢ retired
      → Keeps p (verify_active e reply p).1
  unfolding verify_active
  verify_active-Keeps none reply p live = verified-Keeps reply p live
  verify_active-Keeps (some e) reply p live = Keeps-refl p

  verify_in-Keeps :
      (m : Mode) (reply : Result WriterError Unit) (p : Publisher T)
      → p.state.mode ≡ m
      → Keeps p (verify_in m reply p).1
  unfolding verify_in
  verify_in-Keeps active reply p q = verify_active-Keeps p.state.last_error reply p (λ r. cc)
  verify_in-Keeps passive reply p q = Keeps-refl p
  verify_in-Keeps retired reply p q = Keeps-refl p
  verify_in-Keeps unhealthy reply p q = Keeps-refl p

  pub verify-Keeps :
      (reply : Result WriterError Unit) (p : Publisher T)
      → Keeps p (verify_writer_fence_locked reply p).1
  unfolding verify_writer_fence_locked
  verify-Keeps reply p = verify_in-Keeps p.state.mode reply p refl

  -- The versions are no part of the tail.
  resync-versions :
      (i : Result WriterError WriterInspection) (s : PublisherState T)
      → ((resync_stream_tail_locked i s).1.committed_state_version ≡ s.committed_state_version)
        × ((resync_stream_tail_locked i s).1.next_state_version ≡ s.next_state_version)
  unfolding resync_stream_tail_locked adopt_tail
  resync-versions (err e) s = (refl, refl)
  resync-versions (ok i) s = (ground arith, ground arith)

  reactivate-ordered :
      (p : Publisher T) (r : Published Unit × PublisherState T)
      → (r.1.committed_state_version ≤ r.1.next_state_version)
      → ((reactivate p r).1.state.committed_state_version
          ≤ (reactivate p r).1.state.next_state_version)
        × ((reactivate p r).1.gate ≡ p.gate)
  unfolding reactivate
  reactivate-ordered p (ok _, s) h = (h, refl)
  reactivate-ordered p (err e, s) h = (h, refl)

  reactivate-gate :
      (p : Publisher T) (r : Published Unit × PublisherState T) → (reactivate p r).1.gate ≡ p.gate
  unfolding reactivate
  reactivate-gate p (ok _, s) = refl
  reactivate-gate p (err e, s) = refl

  renew_unhealthy-Keeps :
      (reply : Result WriterError Unit) (i : Result WriterError WriterInspection) (p : Publisher T)
      → p.state.mode ≢ retired
      → Keeps p (renew_unhealthy reply i p).1
  unfolding renew_unhealthy retire record_retired
  renew_unhealthy-Keeps (ok _) i p live =
      let (c, n) = resync-versions i p.state in
      Keeps-live p _ live
        (λ o.
          (reactivate-ordered p (resync_stream_tail_locked i p.state) (omega (arith, c, n, o))).0)
        (reactivate-gate p (resync_stream_tail_locked i p.state))
  renew_unhealthy-Keeps (err e) i p live =
      Keeps-live p _ live (λ o. ground (arith, o)) (ground arith)

  renew_in-Keeps :
      (m : Mode) (reply : Result WriterError Unit) (i : Result WriterError WriterInspection)
      (p : Publisher T)
      → p.state.mode ≡ m
      → Keeps p (renew_in m reply i p).1
  unfolding renew_in
  renew_in-Keeps active reply i p q = verify-Keeps reply p
  renew_in-Keeps passive reply i p q = Keeps-refl p
  renew_in-Keeps retired reply i p q = Keeps-refl p
  renew_in-Keeps unhealthy reply i p q = renew_unhealthy-Keeps reply i p (λ r. cc)

  pub renew-Keeps :
      (reply : Result WriterError Unit) (i : Result WriterError WriterInspection) (p : Publisher T)
      → Keeps p (renew_lease reply i p).1
  unfolding renew_lease
  renew-Keeps reply i p = renew_in-Keeps p.state.mode reply i p refl

  pub self_fence-Keeps : (reason : Text) (p : Publisher T) → Keeps p (self_fence reason p)
  unfolding self_fence record_retired
  self_fence-Keeps reason p = record {
    state = record { ordered = λ o. o; stays_retired = λ r. refl };
    bounded = λ b. b;
  }

module _ {T : Tycho} {W : Type 0} (env : Environment T W) where
  promoted-Keeps :
      (recovering : Bool) (reply : Result WriterError ℕ) (p : Publisher T)
      → p.state.mode ≢ retired
      → Keeps p (promoted env recovering reply p).1
  unfolding promoted promotion_failed activate_generation retire record_retired record_unhealthy
  promoted-Keeps recovering (ok g) p live = Keeps-live p _ live (λ o. omega arith) refl
  promoted-Keeps recovering (err e) p live =
      Keeps-live p _ live (λ o. ground (arith, o)) (ground arith)

  promote_marked-Keeps :
      (recovering : Bool) (reply : Result WriterError ℕ) (p : Publisher T) (n : Published Fields)
      → p.state.mode ≢ retired
      → Keeps p (promote_marked env recovering reply p n).1
  unfolding promote_marked
  promote_marked-Keeps recovering reply p (err e) live = Keeps-refl p
  promote_marked-Keeps recovering reply p (ok f) live = promoted-Keeps recovering reply p live

  not_retired : (m : Mode) (b : Bool) → (is_retired m || b) ≡ false → m ≢ retired
  not_retired passive b h r = cc
  not_retired active b h r = cc
  not_retired unhealthy b h r = cc
  not_retired retired b h r = cc

  pub promote-Keeps :
      (now : ℕ) (backends : List Backend) (reason : Text) (recovering : Bool)
      (reply : Result WriterError ℕ) (p : Publisher T)
      → Keeps p (promote_locked env now backends reason recovering reply p).1
  unfolding promote_locked
  promote-Keeps now backends reason recovering reply p =
      elim (Bool-cases
        (is_retired p.state.mode || (recovering && not (is_unhealthy p.state.mode)))) [
          | inl q ↦ rw q (Keeps-refl p)
          | inr q ↦ rw q (
              promote_marked-Keeps recovering reply p
                (generation_marker_template_fields env now backends reason)
                (not_retired p.state.mode _ q))
        ]

  reset_gate-Keeps :
      (p : Publisher T) (r : Published ReplayBoundary × Publisher T)
      → Keeps p r.1
      → Keeps p (reset_gate env r).1
  unfolding reset_gate
  reset_gate-Keeps p (err e, q) k = k
  reset_gate-Keeps p (ok b, q) k = record { state = k.state; bounded = λ b. omega arith }

  pub recover_writer-Keeps :
      (now : ℕ) (backends : List Backend) (reason : Text) (reply : Result WriterError ℕ)
      (p : Publisher T)
      → Keeps p (recover_writer env now backends reason reply p).1
  unfolding recover_writer
  recover_writer-Keeps now backends reason reply p =
      reset_gate-Keeps p _ (promote-Keeps now backends reason true reply p)
