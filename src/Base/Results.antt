-- ===== src/Base/Results.antt =====
-- Rust's `Result`, with the error type first as in `Result E A`.
use mathlib.Core.Path.{◌≡◌, refl, sym, ap, subst, ◌∙◌}
use mathlib.Core.Bool.{Bool, true, false}
use mathlib.Core.Logic.{◌⊎◌, ◌↔◌, inl, inr}
use mathlib.Core.Option.{Option, none, some}
use tycho_simulation_server.Base.Tests.{if◌then◌else◌}

pub data Result {ℓ} (E A : Type ℓ) : Type ℓ where
  ok : A → Result E A
  err : E → Result E A

module _ {ℓ} {E B : Type ℓ} where
  infixl 5 ◌>>=◌ ◌>>◌
  -- The `?` operator, with the rest of the function as a continuation.
  abbrev pub ◌>>=◌ : {A : Type ℓ} → Result E A → (A → Result E B) → Result E B
  err e >>= rest = err e
  ok a >>= rest = rest a

  -- `?` on a check that returns `()`.
  abbrev pub ◌>>◌ : Result E (Unit {ℓ}) → Result E B → Result E B
  check >> rest = check >>= λ _. rest

-- `if test { Ok(()) } else { Err(e) }`
abbrev pub ensure : {E : Type 0} → Bool → E → Result E (Unit {0})
ensure true e = ok tt
ensure false e = err e

pub ensure_iff : {E : Type 0} (b : Bool) (e : E) → (ensure b e ≡ ok tt) ↔ (b ≡ true)
ensure_iff true e = (λ h. refl, λ h. refl)
ensure_iff false e = (λ h. cc, λ h. cc)

-- `if test { return Err(e) }`
abbrev pub refuse : {E : Type 0} → Bool → E → Result E (Unit {0})
refuse true e = err e
refuse false e = ok tt

-- Option::ok_or
abbrev pub ok_or {ℓ} : {E A : Type ℓ} → Option A → E → Result E A
ok_or none e = err e
ok_or (some a) e = ok a

-- Result::map_err
abbrev pub map_err {ℓ} : {E F A : Type ℓ} → (E → F) → Result E A → Result F A
map_err f (ok a) = ok a
map_err f (err e) = err (f e)

-- The result is a success.
abbrev pub IsOk {ℓ} : {E A : Type ℓ} → Result E A → Type 0
IsOk (ok a) = Unit {0}
IsOk (err e) = ⊥

pub Result-cases {ℓ} :
    {E A : Type ℓ} (r : Result E A) → ((a : A) × (r ≡ ok a)) ⊎ ((e : E) × (r ≡ err e))
Result-cases (ok a) = inl (a, refl)
Result-cases (err e) = inr (e, refl)

-- A function that got past a `?` had a value there, and went on with it.
module _ {ℓ} {E A B : Type ℓ} {b : B} where
  pub past_bind :
      (m : Result E A) (rest : A → Result E B)
      → (m >>= rest) ≡ ok b
      → (a : A) × (m ≡ ok a) × (rest a ≡ ok b)
  past_bind (err e) rest h = cc
  past_bind (ok a) rest h = (a, refl, h)

pub past_map_err :
    {E F A : Type 0} (f : E → F) (r : Result E A) {a : A} → map_err f r ≡ ok a → r ≡ ok a
past_map_err f (ok a) h = cc h
past_map_err f (err e) h = cc h

-- The same for a step that only checks.
pub past_check :
    {E B : Type 0} (m : Result E (Unit {0})) (k : Result E B) {b : B}
    → (m >> k) ≡ ok b
    → (m ≡ ok tt) × (k ≡ ok b)
past_check (ok tt) k h = (refl, h)
past_check (err e) k h = (cc, cc)

-- A failure comes from the step or from what follows it.
pub failed_bind :
    {E A B : Type 0} (m : Result E A) (f : A → Result E B) (e : E)
    → (m >>= f) ≡ err e
    → (m ≡ err e) ⊎ ((a : A) × (m ≡ ok a) × (f a ≡ err e))
failed_bind (ok a) f e h = inr (a, refl, h)
failed_bind (err d) f e h = inl (cc)

-- A check and what follows it succeed exactly when both do.
pub >>_iff :
    {E B P Q : Type 0} (m : Result E (Unit {0})) (k : Result E B) (b : B)
    → (m ≡ ok tt) ↔ P
    → (k ≡ ok b) ↔ Q
    → ((m >> k) ≡ ok b) ↔ (P × Q)
>>_iff (ok tt) k b p q = (λ e. (p.0 refl, q.0 e), λ h. q.1 h.1)
>>_iff (err e) k b p q = (λ h. cc, λ h. cc (p.1 h.0))

-- The same with the terms left to be found.
abbrev pub before :
    {E P Q : Type 0} {m k : Result E (Unit {0})}
    → (m ≡ ok tt) ↔ P
    → (k ≡ ok tt) ↔ Q
    → ((m >> k) ≡ ok tt) ↔ (P × Q)
before {m = m} {k = k} p q = >>_iff m k tt p q

pub ok_iff : {E A : Type 0} (a b : A) → ◌≡◌ {A = Result E A} (ok a) (ok b) ↔ (b ≡ a)
ok_iff a b = (λ h. cc, λ h. cc)

-- A step with a value, and what follows it, for some value.
pub >>=_exists :
    {E A B : Type 0} {P : A → Type 0} (m : Result E A) (f : A → Result E B) (b : B)
    → ((a : A) → (f a ≡ ok b) ↔ P a)
    → ((m >>= f) ≡ ok b) ↔ ((a : A) × (m ≡ ok a) × P a)
>>=_exists (ok a) f b p =
    (λ h. (a, refl, (p a).0 h), λ (x, e, q). ap f (sym ((ok_iff a x).0 e)) ∙ (p x).1 q)
>>=_exists (err e) f b p = (λ h. cc, λ h. cc)

-- A step with one possible value, and what follows it.
pub >>=_iff :
    {E A B P Q : Type 0} (m : Result E A) (f : A → Result E B) (v : A) (b : B)
    → ((a : A) → (m ≡ ok a) ↔ (P × (a ≡ v)))
    → (f v ≡ ok b) ↔ Q
    → ((m >>= f) ≡ ok b) ↔ (P × Q)
>>=_iff (ok a) f v b p q =
    let here = (p a).0 refl in
    (λ e. (here.0, q.0 (ap f (sym here.1) ∙ e)), λ h. ap f here.1 ∙ q.1 h.1)
>>=_iff (err e) f v b p q = (λ h. cc, λ h. cc ((p v).1 (h.0, refl)))

pub err_iff : {E A : Type 0} (e : E) (b : A) → ◌≡◌ {A = Result E A} (err e) (ok b) ↔ ⊥
err_iff e b = (λ h. cc, λ h. absurd h)

-- Where there is a value, it has the property.
abbrev pub Always : {E A : Type 0} → (A → Type 0) → Result E A → Type 0
Always P (ok a) = P a
Always P (err e) = Unit

pub Always-bind :
    {E A B : Type 0} (P : B → Type 0) (m : Result E A) (f : A → Result E B)
    → ((a : A) → m ≡ ok a → Always P (f a))
    → Always P (m >>= f)
Always-bind P (ok a) f h = h a refl
Always-bind P (err e) f h = tt

pub Always-if :
    {E A : Type 0} (P : A → Type 0) (b : Bool) (m n : Result E A)
    → Always P m
    → Always P n
    → Always P (if b then m else n)
Always-if P true m n h k = h
Always-if P false m n h k = k

pub Always-ok :
    {E A : Type 0} (P : A → Type 0) (r : Result E A) (a : A) → Always P r → r ≡ ok a → P a
Always-ok P (ok b) a h q = subst P (cc q) h
Always-ok P (err e) a h q = cc q

pub Always-weaken :
    {E A : Type 0} {P Q : A → Type 0}
    → ((a : A) → P a → Q a)
    → (r : Result E A) → Always P r
    → Always Q r
Always-weaken f (ok a) h = f a h
Always-weaken f (err e) h = tt
