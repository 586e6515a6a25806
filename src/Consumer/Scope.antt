-- ===== src/Consumer/Scope.antt =====
-- Which backends a scope names.
use tycho_simulation_server.Base.{◌≡◌, refl, ap, ◌∙◌, Bool, true, false, [], List, Text, ok}
use tycho_simulation_server.Contract.Backend.{Backend, native, vm, rfq, contains, from_list}
use tycho_simulation_server.Contract.Scope.{members, join_scope, redis_backend_scope}
use tycho_simulation_server.Contract.Scope.RoundTrip.{set, parses}
use tycho_simulation_server.Contract.Scope.Same.{scope_iff}
use tycho_simulation_server.Consumer.{redis_entry_scope_contains}

-- The three answers for a scope.
abbrev answers : Text → Bool × Bool × Bool
answers s = (
  redis_entry_scope_contains s native,
  redis_entry_scope_contains s vm,
  redis_entry_scope_contains s rfq,
)

answers-set : (n v r : Bool) → answers (join_scope [] (members (set n v r))) ≡ (n, v, r)
unfolding parses redis_entry_scope_contains
answers-set false false false = refl
answers-set false false true = refl
answers-set false true false = refl
answers-set false true true = refl
answers-set true false false = refl
answers-set true false true = refl
answers-set true true false = refl
answers-set true true true = refl

answers-written :
    (bs : List Backend) (s : Text)
    → redis_backend_scope bs ≡ ok s
    → answers s
      ≡ (contains native (from_list bs), contains vm (from_list bs), contains rfq (from_list bs))
answers-written bs s h =
    let u = from_list bs in
    ap answers ((scope_iff bs s).0 h).1 ∙ answers-set u.has_native u.has_vm u.has_rfq

-- A scope that is written from a list of backends names a backend exactly when the list has it.
pub redis_entry_scope_contains-contains :
    (bs : List Backend) (s : Text) (b : Backend)
    → redis_backend_scope bs ≡ ok s
    → redis_entry_scope_contains s b ≡ contains b (from_list bs)
redis_entry_scope_contains-contains bs s native h = ap (λ a. a.0) (answers-written bs s h)
redis_entry_scope_contains-contains bs s vm h = ap (λ a. a.1) (answers-written bs s h)
redis_entry_scope_contains-contains bs s rfq h = ap (λ a. a.2) (answers-written bs s h)
