-- ===== src/Contract/Scope/RoundTrip.antt =====
-- Reading back a scope that was written.
use tycho_simulation_server.Base.{
  ◌≡◌, refl, Bool, true, false, List, [], ◌∷◌, Text, ok, split, is_blank, text_eq, past_bind,
  ok_iff, ap, ◌∙◌, past_check, refuse, is_empty, ◌||◌,
}
use tycho_simulation_server.Contract.Backend.{
  Backend, native, vm, rfq, BackendSet, empty, contains, insert, extend, from_list, contains-insert,
  keep_if, backend_eq,
}
use tycho_simulation_server.Contract.Boundary.{required_redis_field}
use tycho_simulation_server.Contract.Scope.{
  collect_unique, members, join_scope, redis_backend_scope, parse_each, parse_redis_backend,
  parse_redis_backend_scope,
}

abbrev pub set : Bool → Bool → Bool → BackendSet
set n v r = record { has_native = n; has_vm = v; has_rfq = r }

-- What reading a concrete scope computes with.
unfoldable pub parses : Unit {0}
unfolding split text_eq is_blank required_redis_field join_scope redis_backend_scope collect_unique
    parse_each parse_redis_backend parse_redis_backend_scope
parses = tt

abbrev pub HasMember : BackendSet → Type 0
HasMember s = is_empty (members s) ≡ false

pub set_read_back :
    (n v r : Bool)
    → HasMember (set n v r)
    → parse_redis_backend_scope (join_scope [] (members (set n v r))) ≡ ok (members (set n v r))
unfolding parses
set_read_back false false false h = cc
set_read_back false false true h = refl
set_read_back false true false h = refl
set_read_back false true true h = refl
set_read_back true false false h = refl
set_read_back true false true h = refl
set_read_back true true false h = refl
set_read_back true true true h = refl

first_kept :
    (k : Bool) (b : Backend) (bs : List Backend) → k ≡ true → is_empty (keep_if k b bs) ≡ false
first_kept k b bs h = rw h refl

later_kept :
    (k : Bool) (b : Backend) (bs : List Backend)
    → is_empty bs ≡ false
    → is_empty (keep_if k b bs) ≡ false
later_kept true b bs h = refl
later_kept false b bs h = h

pub HasMember-contains : (b : Backend) (s : BackendSet) → contains b s ≡ true → HasMember s
HasMember-contains native s h = first_kept s.has_native native _ h
HasMember-contains vm s h = later_kept s.has_native native _ (first_kept s.has_vm vm _ h)
HasMember-contains rfq s h =
    later_kept s.has_native native _ (later_kept s.has_vm vm _ (first_kept s.has_rfq rfq [] h))

or_true : (x : Bool) → (x || true) ≡ true
or_true true = refl
or_true false = refl

pub contains-insert_self : (b : Backend) → contains b (insert b empty) ≡ true
contains-insert_self native = refl
contains-insert_self vm = refl
contains-insert_self rfq = refl

pub contains-extend :
    (b : Backend) (s : BackendSet) (bs : List Backend)
    → contains b s ≡ true
    → contains b (extend s bs) ≡ true
unfolding extend
contains-extend b s [] h = h
contains-extend b s (c ∷ bs) h =
    contains-extend b (insert c s) bs (rw (contains-insert b c s) (rw h (or_true (backend_eq b c))))

collected :
    (s : BackendSet) (bs : List Backend) (u : BackendSet)
    → collect_unique s bs ≡ ok u
    → u ≡ extend s bs
unfolding collect_unique extend
collected s [] u h = cc
collected s (b ∷ bs) u h =
    let (fresh, rest) = past_check (refuse (contains b s) _) (collect_unique (insert b s) bs) h in
    collected (insert b s) bs u rest

-- A scope that is written from a list of backends is read back as these, without repetition and in
-- order.
pub parse_redis_backend_scope-redis_backend_scope :
    (bs : List Backend) (s : Text)
    → redis_backend_scope bs ≡ ok s
    → parse_redis_backend_scope s ≡ ok (members (from_list bs))
unfolding redis_backend_scope from_list extend
parse_redis_backend_scope-redis_backend_scope [] s h = cc
parse_redis_backend_scope-redis_backend_scope (b ∷ bs) s h =
    let (u, collects, final) = past_bind (collect_unique empty (b ∷ bs)) _ h in
    let set_is = collected empty (b ∷ bs) u collects in
    let u' : BackendSet = extend (insert b empty) bs in
    let some_member =
      HasMember-contains b u' (contains-extend b (insert b empty) bs (contains-insert_self b)) in
    let read = set_read_back u'.has_native u'.has_vm u'.has_rfq some_member in
    ap parse_redis_backend_scope ((ok_iff _ s).0 final)
    ∙ ap (λ u. parse_redis_backend_scope (join_scope [] (members u))) set_is
    ∙ read
