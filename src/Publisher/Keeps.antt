-- ===== src/Publisher/Keeps.antt =====
-- What is asked of every call of the publisher in redis_publisher.rs.
use tycho_simulation_server.Base.{
  ◌+◌, ◌≤◌, Bool, true, false, Text, length, ok, err, ◌≡◌, ◌∙◌, arith,
}
use tycho_simulation_server.Contract.External.{Tycho}
use tycho_simulation_server.Publisher.Errors.{retired}
use tycho_simulation_server.Publisher.State.{PublisherState}
use tycho_simulation_server.Publisher.Append.{Environment, Outcome}
use tycho_simulation_server.Publisher.Append.Sequence.{AppendOutcome}
use tycho_simulation_server.Publisher.Gate.{Publisher, max_pending_recovery_payloads}

-- The committed version is an allocated one.
abbrev pub IsOrdered : {T : Tycho} → PublisherState T → Type 0
IsOrdered s = s.committed_state_version ≤ s.next_state_version

-- The versions stay ordered, and a retired state stays retired.
pub record KeepsState {T : Tycho} (s t : PublisherState T) : Type 0 where
  pub ordered : IsOrdered s → IsOrdered t
  pub stays_retired : s.mode ≡ retired → t.mode ≡ retired

-- A payload that is put back may be one more than the queue takes.
abbrev pub IsBounded : {T : Tycho} → Publisher T → Type 0
IsBounded p = length p.gate.pending_payloads ≤ max_pending_recovery_payloads + 1

pub record Keeps {T : Tycho} (p q : Publisher T) : Type 0 where
  pub state : KeepsState p.state q.state
  pub bounded : IsBounded p → IsBounded q

pub KeepsState-refl : {T : Tycho} (s : PublisherState T) → KeepsState s s
KeepsState-refl s = record { ordered = λ h. h; stays_retired = λ h. h }

pub KeepsState-trans :
    {T : Tycho} {s t u : PublisherState T} → KeepsState s t → KeepsState t u → KeepsState s u
KeepsState-trans a b = record {
  ordered = λ h. b.ordered (a.ordered h);
  stays_retired = λ h. b.stays_retired (a.stays_retired h);
}

pub Keeps-refl : {T : Tycho} (p : Publisher T) → Keeps p p
Keeps-refl p = record { state = KeepsState-refl p.state; bounded = λ h. h }

pub Keeps-trans : {T : Tycho} {p q r : Publisher T} → Keeps p q → Keeps q r → Keeps p r
Keeps-trans a b = record {
  state = record {
    ordered = λ h. b.state.ordered (a.state.ordered h);
    stays_retired = λ h. b.state.stays_retired (a.state.stays_retired h);
  };
  bounded = λ h. b.bounded (a.bounded h);
}

module _ {T : Tycho} {W : Type 0} (env : Environment T W) where
  pub AppendOutcome-KeepsState :
      (a : Bool) (s : PublisherState T) (r : Outcome T W Text)
      → AppendOutcome env a s r
      → KeepsState s r.1
  unfolding AppendOutcome
  AppendOutcome-KeepsState true s (ok id, t, w) m = record {
    ordered = λ h. m.committed.1;
    stays_retired = λ h. m.mode ∙ h;
  }
  AppendOutcome-KeepsState false s (ok id, t, w) m = record {
    ordered = λ h. omega (arith, m.committed, m.allocated, h);
    stays_retired = λ h. m.mode ∙ h;
  }
  AppendOutcome-KeepsState a s (err e, t, w) m = record {
    ordered = λ h. omega (arith, m.committed, m.allocated, h);
    stays_retired = λ h. m.mode ∙ h;
  }
