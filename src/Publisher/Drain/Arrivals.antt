-- ===== src/Publisher/Drain/Arrivals.antt =====
-- The payloads that are queued during a drain of redis_publisher.rs.
use tycho_simulation_server.Base.{
  List, [], ◌∷◌, ◌++◌, append_assoc, append-nil, ◌≡◌, refl, subst, sym, ap, ◌∙◌, ◌⊎◌, inl, inr,
  arith, Bool-cases,
}
use tycho_simulation_server.Contract.External.{Tycho}
use tycho_simulation_server.Contract.Payload.{Payload}
use tycho_simulation_server.Publisher.Append.{Environment}
use tycho_simulation_server.Publisher.Gate.{is_some, RecoveryGate}
use tycho_simulation_server.Publisher.Gate.Bound.{queue_payload-pending}
use tycho_simulation_server.Publisher.Drain.{accept_one, accept_all}

-- `chosen` are some of the candidates, in their order.
abbrev pub Chosen : {A : Type 0} → List A → List A → Type 0
Chosen [] chosen = chosen ≡ []
Chosen (c ∷ cs) chosen = Chosen cs chosen ⊎ ((rest : List _) × (chosen ≡ c ∷ rest) × Chosen cs rest)

pub Chosen-append :
    {A : Type 0} (cs ds xs ys : List A) → Chosen cs xs → Chosen ds ys → Chosen (cs ++ ds) (xs ++ ys)
Chosen-append [] ds xs ys h k = subst (λ l. Chosen ds (l ++ ys)) (sym h) k
Chosen-append (c ∷ cs) ds xs ys (inl h) k = inl (Chosen-append cs ds xs ys h k)
Chosen-append (c ∷ cs) ds xs ys (inr (rest, q, h)) k =
    inr (rest ++ ys, ap (λ l. l ++ ys) q, Chosen-append cs ds rest ys h k)

pub Chosen-none : {A : Type 0} (cs : List A) → Chosen cs []
Chosen-none [] = refl
Chosen-none (c ∷ cs) = inl (Chosen-none cs)

abbrev pub all_of : {A : Type 0} → List (List A) → List A
all_of [] = []
all_of (a ∷ later) = a ++ all_of later

pub Chosen-more : {A : Type 0} (cs ds xs : List A) → Chosen cs xs → Chosen (cs ++ ds) xs
Chosen-more cs ds xs h =
    subst (λ l. Chosen (cs ++ ds) l) (append-nil xs) (Chosen-append cs ds xs [] h (Chosen-none ds))

module _ {T : Tycho} {W : Type 0} (env : Environment T W) where
  -- What a gate queues of the payloads that are handed in.
  accept_one-Chosen :
      (c : Payload T) (g : RecoveryGate T)
      → (xs : List (Payload T)) × ((accept_one env c g).pending_payloads ≡ g.pending_payloads ++ xs)
        × Chosen (c ∷ []) xs
  unfolding accept_one
  accept_one-Chosen c g = elim (queue_payload-pending env c g) [
    | inl q ↦ ([], ground (arith, q, append-nil g.pending_payloads), inl refl)
    | inr q ↦ elim (Bool-cases (is_some g.open_recovery_id)) [
      | inl b ↦ (c ∷ [], rw b q, inr ([], refl, refl))
      | inr b ↦ ([], rw b (sym (append-nil g.pending_payloads)), inl refl)
    ]
  ]

  pub accept_all-Chosen :
      (cs : List (Payload T)) (g : RecoveryGate T)
      → (xs : List (Payload T)) × ((accept_all env cs g).pending_payloads
          ≡ g.pending_payloads ++ xs)
        × Chosen cs xs
  unfolding accept_all
  accept_all-Chosen [] g = ([], sym (append-nil g.pending_payloads), refl)
  accept_all-Chosen (c ∷ cs) g =
      let (xs, q, h) = accept_one-Chosen c g in
      let (ys, r, k) = accept_all-Chosen cs (accept_one env c g) in
      (
        xs ++ ys,
        r ∙ ap (λ l. l ++ ys) q ∙ append_assoc g.pending_payloads xs ys,
        Chosen-append (c ∷ []) cs xs ys h k,
      )
