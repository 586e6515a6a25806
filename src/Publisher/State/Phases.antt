-- ===== src/Publisher/State/Phases.antt =====
-- BroadcasterDeploymentPhase and `set_deployment_phase` of redis_publisher.rs.
use tycho_simulation_server.Base.{
  Option, List, [], ◌∷◌, Bool, true, false, not, ◌&&◌, ◌||◌, if◌then◌else◌, ◌≡◌, refl, sym, subst,
  Bool-cases, ◌⊎◌, inl, inr, arith,
}
use tycho_simulation_server.Publisher.Errors.{PublishError}

pub data DeploymentPhase : Type 0 where
  warming candidate_building promoting artifact_finalizing handoff_draining admitted_phase
        retired_phase fatal shutting_down :
      DeploymentPhase

unfoldable pub is_admitted : DeploymentPhase → Bool
is_admitted admitted_phase = true
is_admitted _ = false

unfoldable pub is_terminal : DeploymentPhase → Bool
is_terminal retired_phase = true
is_terminal fatal = true
is_terminal shutting_down = true
is_terminal _ = false

-- BroadcasterDeploymentAdmissionSnapshot
pub record Admission : Type 0 where
  pub admitted : Bool
  pub phase : DeploymentPhase
  pub last_error : Option PublishError

unfoldable pub new_admission : DeploymentPhase → Option PublishError → Admission
unfolding is_admitted
new_admission phase last_error = record {
  admitted = is_admitted phase;
  phase = phase;
  last_error = last_error;
}

unfoldable pub set_deployment_phase : DeploymentPhase → Option PublishError → Admission → Admission
unfolding is_terminal new_admission
set_deployment_phase phase last_error current =
    if is_terminal current.phase || (current.admitted && not (is_terminal phase))
    then current
    else new_admission phase last_error

-- Calls one after another.
unfoldable pub set_phases : List (DeploymentPhase × Option PublishError) → Admission → Admission
unfolding set_deployment_phase
set_phases [] current = current
set_phases ((phase, e) ∷ calls) current = set_phases calls (set_deployment_phase phase e current)

-- `admitted` says whether the phase is the admitted one.
abbrev pub IsConsistent : Admission → Type 0
IsConsistent a = a.admitted ≡ is_admitted a.phase

set_deployment_phase-IsConsistent :
    (phase : DeploymentPhase) (e : Option PublishError) (a : Admission)
    → IsConsistent a
    → IsConsistent (set_deployment_phase phase e a)
unfolding set_deployment_phase new_admission
set_deployment_phase-IsConsistent phase e a h = ground (arith, h)

set_phases-terminal :
    (calls : List (DeploymentPhase × Option PublishError)) (a : Admission)
    → is_terminal a.phase ≡ true
    → set_phases calls a ≡ a
unfolding set_phases set_deployment_phase
set_phases-terminal [] a h = refl
set_phases-terminal ((phase, e) ∷ calls) a h = rw h (set_phases-terminal calls a h)

stays_or_ends :
    (phase : DeploymentPhase) (e : Option PublishError) (a : Admission)
    → a.admitted ≡ true
    → (set_deployment_phase phase e a ≡ a)
      ⊎ (is_terminal (set_deployment_phase phase e a).phase ≡ true)
unfolding set_deployment_phase new_admission
stays_or_ends phase e a q = elim (Bool-cases (is_terminal phase)) [
  | inl r ↦ elim (Bool-cases (is_terminal a.phase)) [
    | inl t ↦ inl (rw t refl)
    | inr t ↦ inr (rw t (rw q (rw r r)))
  ]
  | inr r ↦ inl (rw q (rw r (ground arith)))
]

-- A deployment that reached a terminal phase keeps it, with its error, and one that was admitted
-- stays as it is until it gets to a terminal phase, whatever phases are set afterwards.
pub set_phases-keeps :
    (calls : List (DeploymentPhase × Option PublishError)) (a : Admission)
    → IsConsistent a
    → IsConsistent (set_phases calls a)
      × ((is_terminal a.phase ≡ true) → set_phases calls a ≡ a)
      × ((a.admitted ≡ true)
          → (set_phases calls a ≡ a) ⊎ (is_terminal (set_phases calls a).phase ≡ true))
unfolding set_phases
set_phases-keeps [] a h = (h, (λ _. refl), (λ _. inl refl))
set_phases-keeps ((phase, e) ∷ calls) a h =
    let (c, t, k) =
      set_phases-keeps calls (set_deployment_phase phase e a)
        (set_deployment_phase-IsConsistent phase e a h) in
    (
      c,
      (λ q. set_phases-terminal ((phase, e) ∷ calls) a q),
      (λ q. elim (stays_or_ends phase e a q) [
        | inl r ↦
            subst (λ x. (set_phases calls x ≡ a) ⊎ (is_terminal (set_phases calls x).phase ≡ true))
              (sym r) ((set_phases-keeps calls a h).2 q)
        | inr r ↦ inr (subst (λ x. is_terminal x.phase ≡ true) (sym (t r)) r)
      ]),
    )
