-- ===== src/Publisher/Commit/Keeping.antt =====
-- What `publish_recovery` of redis_publisher.rs keeps.
use tycho_simulation_server.Base.{
  List, Bool, Text, ok, err, ◌≢◌, subst, sym, arith, Always, inl, inr,
}
use tycho_simulation_server.Contract.External.{Tycho}
use tycho_simulation_server.Publisher.Errors.{retired, Published}
use tycho_simulation_server.Publisher.Append.{Environment}
use tycho_simulation_server.Publisher.Gate.{Publisher, Clock}
use tycho_simulation_server.Publisher.Drain.Kept.{drain-Keeps}
use tycho_simulation_server.Publisher.Keeps.{Keeps, Keeps-refl}
use tycho_simulation_server.Publisher.Lease.Kept.{Keeps-live}
use tycho_simulation_server.Publisher.Fragments.{RecoveryFragment}
use tycho_simulation_server.Publisher.Recovery.{RecoveryTransaction}
use tycho_simulation_server.Contract.Payload.{Payload}
use tycho_simulation_server.Publisher.Commit.{
  CancelPoint, RecoveryPublication, publish_checked, publish_recovery,
}
use tycho_simulation_server.Publisher.Commit.Adoption.{
  Adopted, CommitOutcome, publish_checked-CommitOutcome, FragmentsChecked,
  checked_fragments-FragmentsChecked,
}

module _ {T : Tycho} {W : Type 0} (env : Environment T W) (digest_bytes : Text → Text)
    (clock : Clock) (arrivals : List (List (Payload T))) (cancelled : CancelPoint → Bool) where
  Adopted-Keeps :
      (tx : RecoveryTransaction T) (p : Publisher T) (w : W) (q : Publisher T) (v : W)
      → Adopted env digest_bytes clock arrivals cancelled tx p w q v
      → p.state.mode ≢ retired
      → Keeps p q
  Adopted-Keeps tx p w q v a live =
      let adopted = record p { state = record a.behind { committed_state_version = a.version } } in
      let kept : Keeps adopted q =
        subst (Keeps adopted) (sym a.drained) (drain-Keeps env clock arrivals adopted a.writer) in
      record {
        state = record {
          ordered = λ o. kept.state.ordered a.held.allocated;
          stays_retired = λ r. absurd (live r);
        };
        bounded = kept.bounded;
      }

  CommitOutcome-Keeps :
      (tx : RecoveryTransaction T) (p : Publisher T) (w : W)
      (r : Published RecoveryPublication × Publisher T × W)
      → CommitOutcome env digest_bytes clock arrivals cancelled tx p w r
      → p.state.mode ≢ retired
      → Keeps p r.1
  unfolding CommitOutcome
  CommitOutcome-Keeps tx p w (ok x, q, v) (a, i, t, c, o, n) live = Adopted-Keeps tx p w q v a live
  CommitOutcome-Keeps tx p w (err e, q, v) (inl (g, h)) live =
      Keeps-live p q live (λ o. omega (arith, o, h.committed, h.allocated)) g
  CommitOutcome-Keeps tx p w (err e, q, v) (inr a) live = Adopted-Keeps tx p w q v a live

  publish_checked-Keeps :
      (tx : RecoveryTransaction T) (p : Publisher T) (w : W)
      (fs : Published (List RecoveryFragment))
      → Always (FragmentsChecked env digest_bytes clock arrivals cancelled tx p) fs
      → Keeps p (publish_checked env digest_bytes clock arrivals cancelled tx p w fs).1
  unfolding publish_checked
  publish_checked-Keeps tx p w (err e) c = Keeps-refl p
  publish_checked-Keeps tx p w (ok fs) c =
      CommitOutcome-Keeps tx p w
        (publish_checked env digest_bytes clock arrivals cancelled tx p w (ok fs))
        (publish_checked-CommitOutcome env digest_bytes clock arrivals cancelled tx p w (ok fs)
          c.whole)
        c.live

  pub publish_recovery-Keeps :
      (tx : RecoveryTransaction T) (p : Publisher T) (w : W)
      → Keeps p (publish_recovery env digest_bytes clock arrivals cancelled tx p w).1
  unfolding publish_recovery
  publish_recovery-Keeps tx p w =
      publish_checked-Keeps tx p w _
        (checked_fragments-FragmentsChecked env digest_bytes clock arrivals cancelled tx p)
