-- ===== src/Contract/Block/Loop.antt =====
-- Loops that carry the hash expected so far.
use tycho_simulation_server.Base.{◌≡◌, refl, sym, ap, ◌∙◌, Option, some, none, List, [], ◌∷◌, All}
use mathlib.Core.Path.{subst}
use tycho_simulation_server.Contract.Block.{◌>>=◌, observe_each}

pub past :
    {A B : Type 0} {b : B} (m : Option A) (rest : A → Option B)
    → (m >>= rest) ≡ some b
    → (a : A) × (m ≡ some a) × (rest a ≡ some b)
past none rest h = cc
past (some a) rest h = (a, refl, h)

-- The value expected so far, if there is one, is `h`.
abbrev pub Expects : {B : Type 0} → Option B → B → Type 0
Expects none h = Unit
Expects (some e) h = e ≡ h

-- A loop whose step accepts a value exactly when it has the property for the hash expected so far,
-- and then expects that hash.
module _ {A B : Type 0} (P : B → A → Type 0) (f : Option B → A → Option (Option B))
    (sound : (e : Option B) (x : A) (r : Option B)
      → f e x ≡ some r
      → (h : B) × P h x × Expects e h × (r ≡ some h))
    (complete : (e : Option B) (x : A) (h : B) → P h x → Expects e h → f e x ≡ some (some h)) where
  pub each_from :
      (h : B) (xs : List A) (r : Option B)
      → observe_each f (some h) xs ≡ some r
      → (r ≡ some h) × All (P h) xs
  unfolding observe_each
  each_from h [] r q = (cc, tt)
  each_from h (x ∷ xs) r q =
      let (s, this, rest) = past (f (some h) x) (λ s. observe_each f s xs) q in
      let (k, p, e, at) = sound (some h) x s this in
      let ih =
        each_from h xs r (ap (λ s. observe_each f s xs) (sym (at ∙ ap some (sym e))) ∙ rest) in
      (ih.0, (subst (λ k. P k x) (sym e) p, ih.1))

  pub each_to : (h : B) (xs : List A) → All (P h) xs → observe_each f (some h) xs ≡ some (some h)
  unfolding observe_each
  each_to h [] a = refl
  each_to h (x ∷ xs) a = rw (complete (some h) x h a.0 refl) (each_to h xs a.1)

  pub each_first :
      (x : A) (xs : List A) (r : Option B)
      → observe_each f none (x ∷ xs) ≡ some r
      → (h : B) × (r ≡ some h) × All (P h) (x ∷ xs)
  unfolding observe_each
  each_first x xs r q =
      let (s, this, rest) = past (f none x) (λ s. observe_each f s xs) q in
      let (k, p, e, at) = sound none x s this in
      let h = each_from k xs r (ap (λ s. observe_each f s xs) (sym at) ∙ rest) in (k, h.0, (p, h.1))

  pub each_all :
      (h : B) (x : A) (xs : List A)
      → All (P h) (x ∷ xs)
      → observe_each f none (x ∷ xs) ≡ some (some h)
  unfolding observe_each
  each_all h x xs a = rw (complete none x h a.0 tt) (each_to h xs a.1)
