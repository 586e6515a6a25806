-- ===== src/Contract/Scope/Same.antt =====
-- Which lists of backends have a scope, and when two have the same.
use tycho_simulation_server.Base.{
  ◌≡◌, refl, sym, ap, ◌∙◌, ◌↔◌, Bool, true, false, List, [], ◌∷◌, is_empty, Text, text_eq,
  text_eq_iff, Result-cases, inl, inr, ok, ok_iff, >>_iff, past_bind, refuse, ensure, arith,
}
use tycho_simulation_server.Contract.Backend.{
  Backend, BackendSet, empty, contains, insert, extend, from_list,
}
use tycho_simulation_server.Contract.Errors.{ContractError, duplicate_backend_entry}
use tycho_simulation_server.Contract.Validate.{unique_from, validate_unique_backend_entries}
use tycho_simulation_server.Contract.Validate.Backends.{Distinct, validate_unique-Distinct}
use tycho_simulation_server.Contract.Scope.{
  scope_context, collect_unique, members, join_scope, redis_backend_scope,
  parse_redis_backend_scope, or_empty, ensure_redis_backend_scope,
}
use tycho_simulation_server.Contract.Scope.RoundTrip.{
  set, HasMember, HasMember-contains, contains-insert_self, contains-extend, parses, set_read_back,
}

-- The collection succeeds where the uniqueness check does, with the set of the list.
collect_iff :
    (s : BackendSet) (bs : List Backend) (u : BackendSet)
    → (collect_unique s bs ≡ ok u) ↔ ((unique_from scope_context s bs ≡ ok tt) × (u ≡ extend s bs))
unfolding collect_unique unique_from extend
collect_iff s [] u = (λ h. (refl, cc), λ h. ap ok (sym h.1))
collect_iff s (b ∷ bs) u =
    let ih = collect_iff (insert b s) bs u in
    let m = refuse (contains b s) (duplicate_backend_entry scope_context b) in
    let unique =
      >>_iff m (unique_from scope_context (insert b s) bs) tt (λ x. x, λ x. x) (λ x. x, λ x. x) in
    let collect = >>_iff m (collect_unique (insert b s) bs) u (λ x. x, λ x. x) (λ x. x, λ x. x) in
    (
      λ h. let p = collect.0 h in let q = ih.0 p.1 in (unique.1 (p.0, q.0), q.1),
      λ h. let p = unique.0 h.0 in collect.1 (p.0, ih.1 (p.1, h.1)),
    )

-- A list of backends has a scope when it is not empty and none stands in it twice.
pub record HasScope (bs : List Backend) : Type 0 where
  pub some_backend : is_empty bs ≡ false
  pub no_repeat : Distinct bs

abbrev pub scope_of : List Backend → Text
scope_of bs = join_scope [] (members (from_list bs))

pub scope_iff :
    (bs : List Backend) (s : Text)
    → (redis_backend_scope bs ≡ ok s) ↔ (HasScope bs × (s ≡ scope_of bs))
unfolding redis_backend_scope from_list
scope_iff [] s = (λ h. cc, λ h. cc (h.0.some_backend))
scope_iff (b ∷ bs) s = (
  λ h.
      let (u, collects, final) = past_bind (collect_unique empty (b ∷ bs)) _ h in
      let (unique, set_is) = (collect_iff empty (b ∷ bs) u).0 collects in
      let no_repeat =
        (validate_unique-Distinct scope_context (b ∷ bs)).0
          (unfold validate_unique_backend_entries in unique) in
      (
        record { some_backend = refl; no_repeat = no_repeat },
        (ok_iff _ s).0 final ∙ ap (λ u. join_scope [] (members u)) set_is,
      ),
  λ h.
      let unique : unique_from scope_context empty (b ∷ bs) ≡ ok tt =
        unfold validate_unique_backend_entries in
        (validate_unique-Distinct scope_context (b ∷ bs)).1 h.0.no_repeat in
      let collects = (collect_iff empty (b ∷ bs) (extend empty (b ∷ bs))).1 (unique, refl) in
      rw collects (ap ok (sym h.1)),
)

pub members_back : (n v r : Bool) → from_list (members (set n v r)) ≡ set n v r
unfolding from_list extend
members_back false false false = refl
members_back false false true = refl
members_back false true false = refl
members_back false true true = refl
members_back true false false = refl
members_back true false true = refl
members_back true true false = refl
members_back true true true = refl

pub from_list-HasMember : (bs : List Backend) → is_empty bs ≡ false → HasMember (from_list bs)
unfolding from_list extend
from_list-HasMember [] h = cc
from_list-HasMember (b ∷ bs) h =
    HasMember-contains b _ (contains-extend b (insert b empty) bs (contains-insert_self b))

join_injective :
    (u v : BackendSet)
    → HasMember u
    → HasMember v
    → join_scope [] (members u) ≡ join_scope [] (members v)
    → u ≡ v
join_injective u v hu hv same =
    let read_u = set_read_back u.has_native u.has_vm u.has_rfq hu in
    let read_v = set_read_back v.has_native v.has_vm v.has_rfq hv in
    let equal = sym read_u ∙ ap parse_redis_backend_scope same ∙ read_v in
    sym (members_back u.has_native u.has_vm u.has_rfq)
    ∙ ap from_list (sym ((ok_iff _ _).0 equal))
    ∙ members_back v.has_native v.has_vm v.has_rfq

-- Both lists have a scope, of the same set of backends.
pub record SameScope (es ps : List Backend) : Type 0 where
  pub entry_has : HasScope es
  pub payload_has : HasScope ps
  pub same_set : from_list es ≡ from_list ps

ensure_text_iff : (e : ContractError) (s t : Text) → (ensure (text_eq s t) e ≡ ok tt) ↔ (s ≡ t)
ensure_text_iff e s t = ground (arith, text_eq_iff s t)

-- A scope is not empty, since the empty text does not read back.
scope_of-not_empty : (bs : List Backend) → HasScope bs → (scope_of bs ≡ []) → ⊥
unfolding parses
scope_of-not_empty bs h q =
    let u = from_list bs in
    let read =
      set_read_back u.has_native u.has_vm u.has_rfq (from_list-HasMember bs h.some_backend) in
    cc (sym read ∙ ap parse_redis_backend_scope q)

payload_scope :
    (s : Text) (es ps : List Backend)
    → HasScope es
    → s ≡ scope_of es
    → s ≡ or_empty (redis_backend_scope ps)
    → SameScope es ps
payload_scope s es ps has at same = elim (Result-cases (redis_backend_scope ps)) [
  | inl (t, q) ↦
      let (also, is_scope) = (scope_iff ps t).0 q in
      let joined = sym at ∙ same ∙ ap or_empty q ∙ is_scope in
      record {
        entry_has = has;
        payload_has = also;
        same_set =
            join_injective (from_list es) (from_list ps) (from_list-HasMember es has.some_backend)
              (from_list-HasMember ps also.some_backend) joined;
      }
  | inr (e, q) ↦ absurd (scope_of-not_empty es has (sym at ∙ same ∙ ap or_empty q))
]

-- The scopes of an entry and of its payload are compared as sets: the check succeeds exactly when
-- both lists are not empty, without repetition, and have the same members.
pub ensure_redis_backend_scope-SameScope :
    (es ps : List Backend) → (ensure_redis_backend_scope es ps ≡ ok tt) ↔ SameScope es ps
unfolding ensure_redis_backend_scope
ensure_redis_backend_scope-SameScope es ps = (
  λ h.
      let (s, q, rest) = past_bind (redis_backend_scope es) _ h in
      let (has, at) = (scope_iff es s).0 q in
      payload_scope s es ps has at ((ensure_text_iff _ _ _).0 rest),
  λ h.
      let left = (scope_iff es (scope_of es)).1 (h.entry_has, refl) in
      let right = (scope_iff ps (scope_of ps)).1 (h.payload_has, refl) in
      rw left
        (rw right ((ensure_text_iff _ _ _).1 (ap (λ u. join_scope [] (members u)) h.same_set))),
)
