-- ===== src/Publisher/Calls/Kept.antt =====
-- What any sequence of the publisher's calls keeps.
use tycho_simulation_server.Base.{ℕ, List, [], ◌∷◌, false, ◌≡◌, arith}
use tycho_simulation_server.Contract.External.{Tycho}
use tycho_simulation_server.Publisher.Errors.{retired}
use tycho_simulation_server.Publisher.State.{new_publisher}
use tycho_simulation_server.Publisher.Append.{Environment}
use tycho_simulation_server.Publisher.Gate.{Publisher}
use tycho_simulation_server.Publisher.Gate.Bound.{begin_recovery-Keeps}
use tycho_simulation_server.Publisher.Publish.Kept.{publish_accepted_payload-Keeps}
use tycho_simulation_server.Publisher.Drain.Kept.{drain-Keeps}
use tycho_simulation_server.Publisher.Lease.Kept.{
  verify-Keeps, renew-Keeps, self_fence-Keeps, promote-Keeps, recover_writer-Keeps,
}
use tycho_simulation_server.Publisher.Handoff.Kept.{
  begin_handoff-Keeps, abort_handoff-Keeps, freeze_handoff-KeepsState, drain_handoff-Keeps,
}
use tycho_simulation_server.Publisher.Commit.Keeping.{publish_recovery-Keeps}
use tycho_simulation_server.Publisher.Keeps.{IsOrdered, IsBounded, Keeps, Keeps-refl, Keeps-trans}
use tycho_simulation_server.Publisher.Calls.{
  Call, accepts, begins, drains, verifies, renews, promotes, recovers_writer, fences, publishes,
  begins_handoff, aborts_handoff, freezes_handoff, drains_handoff, new_passive, handle, handle_all,
}

module _ {T : Tycho} {W : Type 0} (env : Environment T W) where
  handle-Keeps : (c : Call T) (p : Publisher T) (w : W) → Keeps p (handle env c p w).0
  unfolding handle
  handle-Keeps (accepts now clock payload) p w =
      publish_accepted_payload-Keeps env now clock payload p w
  handle-Keeps (begins backends) p w = begin_recovery-Keeps env backends p
  handle-Keeps (drains clock arrivals) p w = drain-Keeps env clock arrivals p w
  handle-Keeps (verifies reply) p w = verify-Keeps reply p
  handle-Keeps (renews reply i) p w = renew-Keeps reply i p
  handle-Keeps (promotes now backends reason reply) p w =
      promote-Keeps env now backends reason false reply p
  handle-Keeps (recovers_writer now backends reason reply) p w =
      recover_writer-Keeps env now backends reason reply p
  handle-Keeps (publishes digest_bytes clock arrivals cancelled tx) p w =
      publish_recovery-Keeps env digest_bytes clock arrivals cancelled tx p w
  handle-Keeps (begins_handoff id now) p w = begin_handoff-Keeps id now p
  handle-Keeps (aborts_handoff id e) p w = abort_handoff-Keeps id e p
  handle-Keeps (freezes_handoff id now) p w = record {
    state = freeze_handoff-KeepsState env id now p.state;
    bounded = λ b. b;
  }
  handle-Keeps (drains_handoff clock handoff) p w = drain_handoff-Keeps env clock handoff p w
  handle-Keeps (fences reason) p w = self_fence-Keeps reason p

  handle_all-Keeps :
      (cs : List (Call T)) (p : Publisher T) (w : W) → Keeps p (handle_all env cs p w).0
  unfolding handle_all
  handle_all-Keeps [] p w = Keeps-refl p
  handle_all-Keeps (c ∷ cs) p w =
      Keeps-trans (handle-Keeps c p w)
        (handle_all-Keeps cs (handle env c p w).0 (handle env c p w).1)

  -- After any calls on a new publisher, in any order and with any replies of the writer, the
  -- committed state version is at most the last one allocated, and the queue behind an open recovery
  -- has at most 1025 payloads: the 1024 that it takes, and one that a drain puts back when others were
  -- queued meanwhile.
  pub handle_all-IsBounded :
      (cs : List (Call T)) (chain_id : ℕ) (w : W)
      → IsOrdered (handle_all env cs (new_passive chain_id) w).0.state
        × IsBounded (handle_all env cs (new_passive chain_id) w).0
  unfolding new_passive new_publisher
  handle_all-IsBounded cs chain_id w =
      let kept = handle_all-Keeps cs (new_passive chain_id) w in
      (kept.state.ordered (omega arith), kept.bounded (omega arith))

  -- A retired publisher stays retired, whatever is called on it and whatever the writer replies.
  pub handle_all-retired :
      (cs : List (Call T)) (p : Publisher T) (w : W)
      → p.state.mode ≡ retired
      → (handle_all env cs p w).0.state.mode ≡ retired
  handle_all-retired cs p w = (handle_all-Keeps cs p w).state.stays_retired
