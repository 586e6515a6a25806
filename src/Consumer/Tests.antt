-- ===== src/Consumer/Tests.antt =====
-- A scope of two backends, and the theorem at it.
use tycho_simulation_server.Base.{◌≡◌, refl, [], ◌∷◌, codes, ok}
use tycho_simulation_server.Contract.Backend.{native, rfq, vm, contains, from_list}
use tycho_simulation_server.Contract.Scope.{redis_backend_scope, collect_unique, join_scope}
use tycho_simulation_server.Consumer.{redis_entry_scope_contains}
use tycho_simulation_server.Consumer.Scope.{redis_entry_scope_contains-contains}

written : redis_backend_scope (rfq ∷ native ∷ []) ≡ ok (codes "native,rfq")
unfolding redis_backend_scope collect_unique join_scope
written = refl

redis_entry_scope_contains-contains_example :
    redis_entry_scope_contains (codes "native,rfq") vm ≡ contains vm (from_list (rfq ∷ native ∷ []))
redis_entry_scope_contains-contains_example =
    redis_entry_scope_contains-contains (rfq ∷ native ∷ []) (codes "native,rfq") vm written
