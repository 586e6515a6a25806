-- ===== src/Contract/Scope.antt =====
-- The backend scope of a Redis entry, a comma-separated text: `redis_backend_scope`,
-- `parse_redis_backend_scope` and `ensure_redis_backend_scope` of broadcaster/redis_streams.rs.
pub mod RoundTrip
pub mod Same
use tycho_simulation_server.Base.{
  ℕ, Bool, true, false, not, ◌||◌, List, [], ◌∷◌, ◌++◌, is_empty, if◌then◌else◌, Text, codes,
  text_eq, split, Result, ok, err, ◌>>=◌, ◌>>◌, ensure, refuse,
}
use tycho_simulation_server.Contract.Backend.{
  Backend, native, vm, rfq, as_str, backend_eq, BackendSet, empty, contains, insert, keep_if,
}
use tycho_simulation_server.Contract.Errors.{
  Checked, redis_entry_empty_field, duplicate_backend_entry, redis_backend_scope_invalid,
}
use tycho_simulation_server.Contract.Boundary.{required_redis_field}

abbrev pub scope_context : Text
scope_context = codes "redis_entry.backend_scope"

-- The loop over `unique`, a BTreeSet.
unfoldable pub collect_unique : BackendSet → List Backend → Checked BackendSet
collect_unique seen [] = ok seen
collect_unique seen (b ∷ bs) =
    refuse (contains b seen) (duplicate_backend_entry scope_context b)
    >> collect_unique (insert b seen) bs

-- The members of a BTreeSet, in order.
abbrev pub members : BackendSet → List Backend
members s = keep_if s.has_native native (keep_if s.has_vm vm (keep_if s.has_rfq rfq []))

unfoldable pub join_scope : Text → List Backend → Text
join_scope scope [] = scope
join_scope scope (b ∷ bs) =
    join_scope ((if is_empty scope then scope else scope ++ codes ",") ++ as_str b) bs

unfoldable pub redis_backend_scope : List Backend → Checked Text
unfolding collect_unique join_scope
redis_backend_scope backends = do
  refuse (is_empty backends) (redis_entry_empty_field (codes "backend_scope"))
  unique ← collect_unique empty backends
  ok (join_scope [] (members unique))

unfoldable pub parse_redis_backend : Text → Checked Backend
parse_redis_backend value =
    if text_eq value (codes "native")
    then ok native
    else if text_eq value (codes "vm")
    then ok vm
    else if text_eq value (codes "rfq")
    then ok rfq
    else err (redis_backend_scope_invalid value)

-- `backends.contains(&backend)`
abbrev is_among : Backend → List Backend → Bool
is_among b [] = false
is_among b (c ∷ cs) = backend_eq c b || is_among b cs

-- The loop over the pieces of the scope.
unfoldable pub parse_each : List Backend → List Text → Checked (List Backend)
unfolding parse_redis_backend
parse_each backends [] = ok backends
parse_each backends (value ∷ values) = do
  backend ← parse_redis_backend value
  refuse (is_among backend backends) (duplicate_backend_entry scope_context backend)
  parse_each (backends ++ backend ∷ []) values

unfoldable pub parse_redis_backend_scope : Text → Checked (List Backend)
unfolding parse_each
parse_redis_backend_scope backend_scope = do
  _ ← required_redis_field (codes "backend_scope") backend_scope
  backends ← parse_each [] (split b',' backend_scope)
  expected ← redis_backend_scope backends
  refuse (not (text_eq backend_scope expected)) (redis_backend_scope_invalid backend_scope)
  ok backends

-- unwrap_or_default
abbrev pub or_empty : Checked Text → Text
or_empty (ok s) = s
or_empty (err e) = []

unfoldable pub ensure_redis_backend_scope : List Backend → List Backend → Checked Unit
ensure_redis_backend_scope entry_backends payload_backends = do
  entry_scope ← redis_backend_scope entry_backends
  let payload_scope = or_empty (redis_backend_scope payload_backends)
  ensure (text_eq entry_scope payload_scope) (redis_backend_scope_invalid entry_scope)
