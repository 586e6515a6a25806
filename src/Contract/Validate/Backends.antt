-- ===== src/Contract/Validate/Backends.antt =====
-- The validators on lists and sets of backends, and what they describe.
use tycho_simulation_server.Base.{
  ◌≡◌, refl, ◌≢◌, ◌↔◌, true, false, List, [], ◌∷◌, All, Text, ok, arith, refuse, ensure, past_check,
}
use tycho_simulation_server.Contract.Backend.{
  Backend, native, vm, rfq, backend_eq, BackendSet, empty, contains, insert, extend, IsSubset,
  contains-insert,
}
use tycho_simulation_server.Contract.Errors.{duplicate_backend_entry, undeclared_backend_entry}
use tycho_simulation_server.Contract.Validate.{
  unique_from, validate_unique_backend_entries, validate_declared_backend_entries,
  ensure_all_declared_backends_observed,
}

-- No backend stands twice in the list.
abbrev pub Distinct : List Backend → Type 0
Distinct [] = Unit
Distinct (b ∷ bs) = All (λ c. b ≢ c) bs × Distinct bs

-- Every backend of the list is in the set.
abbrev pub Declared : List Backend → BackendSet → Type 0
Declared bs s = All (λ b. contains b s ≡ true) bs

pub backend_eq_iff : (b c : Backend) → (backend_eq b c ≡ true) ↔ (b ≡ c)
backend_eq_iff native native = ground arith
backend_eq_iff native vm = ground arith
backend_eq_iff native rfq = ground arith
backend_eq_iff vm native = ground arith
backend_eq_iff vm vm = ground arith
backend_eq_iff vm rfq = ground arith
backend_eq_iff rfq native = ground arith
backend_eq_iff rfq vm = ground arith
backend_eq_iff rfq rfq = ground arith

-- What the loop knows: nothing in the list was seen, and nothing stands twice.
abbrev Fresh : BackendSet → List Backend → Type 0
Fresh seen bs = All (λ c. contains c seen ≡ false) bs

Fresh-insert :
    (b : Backend) (seen : BackendSet) (bs : List Backend)
    → Fresh (insert b seen) bs
    → Fresh seen bs × All (λ c. b ≢ c) bs
Fresh-insert b seen [] h = (tt, tt)
Fresh-insert b seen (c ∷ bs) h =
    let rest = Fresh-insert b seen bs h.1 in
    (
      (ground (arith, h.0, contains-insert c b seen), rest.0),
      (ground (arith, h.0, contains-insert c b seen, backend_eq_iff c b), rest.1),
    )

insert-Fresh :
    (b : Backend) (seen : BackendSet) (bs : List Backend)
    → Fresh seen bs
    → All (λ c. b ≢ c) bs
    → Fresh (insert b seen) bs
insert-Fresh b seen [] h d = tt
insert-Fresh b seen (c ∷ bs) h d = (
  ground (arith, h.0, d.0, contains-insert c b seen, backend_eq_iff c b),
  insert-Fresh b seen bs h.1 d.1,
)

unique_from_sound :
    (context : Text) (seen : BackendSet) (bs : List Backend)
    → unique_from context seen bs ≡ ok tt
    → Fresh seen bs × Distinct bs
unfolding unique_from
unique_from_sound context seen [] h = (tt, tt)
unique_from_sound context seen (b ∷ bs) h =
    let parts =
      past_check (refuse (contains b seen) (duplicate_backend_entry context b))
        (unique_from context (insert b seen) bs) h in
    let rest = unique_from_sound context (insert b seen) bs parts.1 in
    let split = Fresh-insert b seen bs rest.0 in
    ((ground (arith, parts.0), split.0), (split.1, rest.1))

unique_from_complete :
    (context : Text) (seen : BackendSet) (bs : List Backend)
    → Fresh seen bs
    → Distinct bs
    → unique_from context seen bs ≡ ok tt
unfolding unique_from
unique_from_complete context seen [] f d = refl
unique_from_complete context seen (b ∷ bs) f d =
    rw f.0 (unique_from_complete context (insert b seen) bs (insert-Fresh b seen bs f.1 d.0) d.1)

Fresh-empty : (bs : List Backend) → Fresh empty bs
Fresh-empty [] = tt
Fresh-empty (native ∷ bs) = (refl, Fresh-empty bs)
Fresh-empty (vm ∷ bs) = (refl, Fresh-empty bs)
Fresh-empty (rfq ∷ bs) = (refl, Fresh-empty bs)

-- The uniqueness check succeeds exactly on lists in which no backend stands twice.
pub validate_unique-Distinct :
    (context : Text) (bs : List Backend)
    → (validate_unique_backend_entries context bs ≡ ok tt) ↔ Distinct bs
unfolding validate_unique_backend_entries
validate_unique-Distinct context bs = (
  λ h. (unique_from_sound context empty bs h).1,
  unique_from_complete context empty bs (Fresh-empty bs),
)

pub Declared-iff :
    (context : Text) (bs : List Backend) (s : BackendSet)
    → (validate_declared_backend_entries context bs s ≡ ok tt) ↔ Declared bs s
unfolding validate_declared_backend_entries
Declared-iff context [] s = (λ h. tt, λ h. refl)
Declared-iff context (b ∷ bs) s =
    let ih = Declared-iff context bs s in
    (
      λ h.
          let parts =
            past_check (ensure (contains b s) (undeclared_backend_entry context b))
              (validate_declared_backend_entries context bs s) h in
          (ground (arith, parts.0), ih.0 parts.1),
      λ d. rw d.0 (ih.1 d.1),
    )

-- The completeness check succeeds exactly when every declared backend was observed.
pub ensure_all_observed-IsSubset :
    (declared observed : BackendSet)
    → (ensure_all_declared_backends_observed declared observed ≡ ok tt) ↔ IsSubset declared observed
unfolding ensure_all_declared_backends_observed
ensure_all_observed-IsSubset declared observed = (
  λ h. elim [ native ↦ λ e. ground arith | vm ↦ λ e. ground arith | rfq ↦ λ e. ground arith ],
  λ sub. ground (arith, sub native, sub vm, sub rfq),
)

pub extend-IsSubset :
    (s t : BackendSet) (bs : List Backend) → IsSubset s t → Declared bs t → IsSubset (extend s bs) t
unfolding extend
extend-IsSubset s t [] h d = h
extend-IsSubset s t (b ∷ bs) h d =
    extend-IsSubset (insert b s) t bs
      (λ c e. ground (arith, contains-insert c b s, backend_eq_iff c b, h c, d.0)) d.1
