-- ===== src/Consumer.antt =====
-- The consumer, crates/runtime/src/broadcaster/redis_subscription/processor.rs: so far the choice of the
-- deltas that a backend's processor applies.
pub mod Scope
pub mod Tests
use tycho_simulation_server.Base.{
  Bool, true, false, ◌||◌, List, [], ◌∷◌, Text, text_eq, split, if◌then◌else◌, ok, err, ◌>>=◌,
}
use tycho_simulation_server.Contract.External.{Tycho}
use tycho_simulation_server.Contract.Backend.{Backend, as_str}
use tycho_simulation_server.Contract.Errors.{Checked}
use tycho_simulation_server.Contract.Payload.{Envelope}
use tycho_simulation_server.Contract.Tracker.{Tracker, skip_live_delta}
use tycho_simulation_server.Contract.Tracker.Observe.{observe}

-- Iterator::any of equality with a text.
unfoldable pub any_equal : Text → List Text → Bool
any_equal t [] = false
any_equal t (s ∷ ss) = text_eq s t || any_equal t ss

-- The scope is the field `backend_scope` of the entry.
unfoldable pub redis_entry_scope_contains : Text → Backend → Bool
unfolding any_equal
redis_entry_scope_contains backend_scope backend =
    any_equal (as_str backend) (split b',' backend_scope)
