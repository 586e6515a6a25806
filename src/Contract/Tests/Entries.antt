-- ===== src/Contract/Tests/Entries.antt =====
-- Redis entries of a heartbeat, and the theorems on entries at it.
use tycho_simulation_server.Base.{
  ◌≡◌, refl, ◌↔◌, [], ◌∷◌, codes, is_blank, is_whitespace, false, ok, arith,
}
use tycho_simulation_server.Contract.Backend.{native, rfq, from_list}
use tycho_simulation_server.Contract.Payload.{payload_kind, envelope_kind}
use tycho_simulation_server.Contract.Boundary.{StreamEntry}
use tycho_simulation_server.Contract.Scope.{
  members, redis_backend_scope, collect_unique, join_scope, parse_redis_backend_scope,
}
use tycho_simulation_server.Contract.Scope.RoundTrip.{parse_redis_backend_scope-redis_backend_scope}
use tycho_simulation_server.Contract.Derived.{
  redis_payload_backend_scope, redis_payload_snapshot_id, redis_payload_chain_id,
}
use tycho_simulation_server.Contract.Entry.{Json, validate, from_envelope_at}
use tycho_simulation_server.Contract.Entry.Validity.{EntryIsValid, validate-EntryIsValid}
use tycho_simulation_server.Contract.Entry.Publish.{
  Publishable, entry_of, from_envelope_at-validate,
}
use tycho_simulation_server.Contract.Tests.{toy, heartbeat_8}

written : redis_backend_scope (rfq ∷ native ∷ []) ≡ ok (codes "native,rfq")
unfolding redis_backend_scope collect_unique join_scope
written = refl

parse_redis_backend_scope-redis_backend_scope_example :
    parse_redis_backend_scope (codes "native,rfq") ≡ ok (members (from_list (rfq ∷ native ∷ [])))
parse_redis_backend_scope-redis_backend_scope_example =
    parse_redis_backend_scope-redis_backend_scope (rfq ∷ native ∷ []) (codes "native,rfq") written

-- Envelopes as one letter.
abbrev json : Json toy
json = record { to_string = λ e. ok (codes "h"); from_str = λ s. ok heartbeat_8 }

heartbeat_Publishable : Publishable 1 heartbeat_8 3
unfolding envelope_kind payload_kind is_blank is_whitespace redis_payload_backend_scope
    redis_payload_snapshot_id redis_payload_chain_id
heartbeat_Publishable = record {
  is_delta = tt;
  is_numbered = omega arith;
  has_stream = refl;
  backends = native ∷ [];
  has_backends = refl;
  has_scope = record { some_backend = refl; no_repeat = (tt, tt) };
  snapshot_text = refl;
  same_chain = refl;
  same_version = tt;
}

letter : is_blank (codes "h") ≡ false
unfolding is_blank is_whitespace
letter = refl

from_envelope_at-validate_example :
    (from_envelope_at json 1 heartbeat_8 0 3
      ≡ ok (entry_of 1 heartbeat_8 0 3 heartbeat_Publishable.backends (codes "h")))
    × (validate json (entry_of 1 heartbeat_8 0 3 heartbeat_Publishable.backends (codes "h"))
        ≡ ok tt)
from_envelope_at-validate_example =
    from_envelope_at-validate json 1 heartbeat_8 0 3 (codes "h") heartbeat_Publishable refl letter
      refl

abbrev heartbeat_entry : StreamEntry
heartbeat_entry = entry_of 1 heartbeat_8 0 3 (native ∷ []) (codes "h")

validate-EntryIsValid_example :
    (validate json heartbeat_entry ≡ ok tt) ↔ EntryIsValid json heartbeat_entry
validate-EntryIsValid_example = validate-EntryIsValid json heartbeat_entry
