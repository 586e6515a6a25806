-- ===== src/Contract/Protocol.antt =====
-- crates/simulator-core/src/models/protocol.rs: the protocols and how their names are recognised.
use tycho_simulation_server.Base.{
  ℕ, ◌+◌, ◌||◌, ◌&&◌, Option, none, some, List, [], ◌∷◌, map, leb, ◌==◌, if◌then◌else◌, Text, codes,
  text_eq,
}
use tycho_simulation_server.Contract.External.{Tycho}

pub data ProtocolKind : Type 0 where
  uniswap_v2 uniswap_v3 uniswap_v4 aerodrome_slipstreams curve pancakeswap_v2 pancakeswap_v3
        ekubo_v2 sushiswap_v2 maverick_v2 balancer_v2 fluid_v1 rocketpool ekubo_v3 erc4626 hashflow
        bebop liquorice :
      ProtocolKind

abbrev pub all_kinds : List ProtocolKind
all_kinds =
    uniswap_v2 ∷ uniswap_v3 ∷ uniswap_v4 ∷ aerodrome_slipstreams ∷ curve ∷ pancakeswap_v2
    ∷ pancakeswap_v3 ∷ ekubo_v2 ∷ sushiswap_v2 ∷ maverick_v2 ∷ balancer_v2 ∷ fluid_v1 ∷ rocketpool
    ∷ ekubo_v3 ∷ erc4626 ∷ hashflow ∷ bebop ∷ liquorice ∷ []

unfoldable pub kind_as_str : ProtocolKind → Text
kind_as_str uniswap_v2 = codes "uniswap_v2"
kind_as_str uniswap_v3 = codes "uniswap_v3"
kind_as_str uniswap_v4 = codes "uniswap_v4"
kind_as_str aerodrome_slipstreams = codes "aerodrome_slipstreams"
kind_as_str curve = codes "vm:curve"
kind_as_str pancakeswap_v2 = codes "pancakeswap_v2"
kind_as_str pancakeswap_v3 = codes "pancakeswap_v3"
kind_as_str ekubo_v2 = codes "ekubo_v2"
kind_as_str sushiswap_v2 = codes "sushiswap_v2"
kind_as_str maverick_v2 = codes "vm:maverick_v2"
kind_as_str balancer_v2 = codes "vm:balancer_v2"
kind_as_str fluid_v1 = codes "fluid_v1"
kind_as_str rocketpool = codes "rocketpool"
kind_as_str ekubo_v3 = codes "ekubo_v3"
kind_as_str erc4626 = codes "erc4626"
kind_as_str hashflow = codes "rfq:hashflow"
kind_as_str bebop = codes "rfq:bebop"
kind_as_str liquorice = codes "rfq:liquorice"

-- `match name { "…" => Some(…), … _ => None }`, as the table of its arms.
unfoldable pub match_name : List (Text × ProtocolKind) → Text → Option ProtocolKind
unfolding text_eq
match_name [] name = none
match_name ((arm, kind) ∷ arms) name =
    let rest = match_name arms name in if text_eq name arm then some kind else rest

abbrev type_name_arms : List (Text × ProtocolKind)
type_name_arms =
    (codes "uniswap_v2_pool", uniswap_v2)
    ∷ (codes "sushiswap_v2_pool", sushiswap_v2)
    ∷ (codes "pancakeswap_v2_pool", pancakeswap_v2)
    ∷ (codes "uniswap_v3_pool", uniswap_v3)
    ∷ (codes "pancakeswap_v3_pool", pancakeswap_v3)
    ∷ (codes "uniswap_v4_pool", uniswap_v4)
    ∷ (codes "ekubo_v2_pool", ekubo_v2)
    ∷ (codes "ekubo_v3_pool", ekubo_v3)
    ∷ (codes "fluid_dex_pool", fluid_v1)
    ∷ (codes "curve_pool", curve)
    ∷ (codes "balancer_v2_pool", balancer_v2)
    ∷ (codes "maverick_v2_pool", maverick_v2)
    ∷ (codes "erc4626_pool", erc4626)
    ∷ (codes "hashflow_pool", hashflow)
    ∷ (codes "bebop_pool", bebop)
    ∷ (codes "liquorice_pool", liquorice)
    ∷ []

unfoldable pub from_protocol_type_name : Text → Option ProtocolKind
unfolding match_name
from_protocol_type_name name = match_name type_name_arms name

abbrev system_arms : List (Text × ProtocolKind)
system_arms =
    (codes "uniswap_v2", uniswap_v2)
    ∷ (codes "sushiswap_v2", sushiswap_v2)
    ∷ (codes "pancakeswap_v2", pancakeswap_v2)
    ∷ (codes "uniswap_v3", uniswap_v3)
    ∷ (codes "pancakeswap_v3", pancakeswap_v3)
    ∷ (codes "uniswap_v4", uniswap_v4)
    ∷ (codes "aerodrome_slipstreams", aerodrome_slipstreams)
    ∷ (codes "ekubo_v2", ekubo_v2)
    ∷ (codes "ekubo_v3", ekubo_v3)
    ∷ (codes "fluid_v1", fluid_v1)
    ∷ (codes "rocketpool", rocketpool)
    ∷ (codes "vm:curve", curve)
    ∷ (codes "vm:balancer_v2", balancer_v2)
    ∷ (codes "vm:maverick_v2", maverick_v2)
    ∷ (codes "erc4626", erc4626)
    ∷ (codes "rfq:hashflow", hashflow)
    ∷ (codes "rfq:bebop", bebop)
    ∷ (codes "rfq:liquorice", liquorice)
    ∷ []

unfoldable pub from_protocol_system : Text → Option ProtocolKind
unfolding match_name
from_protocol_system name = match_name system_arms name

-- ASCII lower case, then a dash or a space becomes an underscore.
normalize_char : ℕ → ℕ
normalize_char c =
    if leb b'A' c && leb c b'Z' then c + 32 else if c == b'-' || c == 32 then b'_' else c

unfoldable pub normalize_proto_name : Text → Text
unfolding normalize_char
normalize_proto_name name = map normalize_char name

abbrev or_else : Option ProtocolKind → Option ProtocolKind → Option ProtocolKind
or_else (some kind) other = some kind
or_else none other = other

-- The protocol system decides; the type name is the fallback.
unfoldable pub from_component : (T : Tycho) → T.Component → Option ProtocolKind
unfolding normalize_proto_name from_protocol_system from_protocol_type_name
from_component T component =
    or_else (from_protocol_system (normalize_proto_name (T.protocol_system component)))
      (from_protocol_type_name (normalize_proto_name (T.protocol_type_name component)))

unfoldable pub from_sync_state_key : Text → Option ProtocolKind
unfolding normalize_proto_name from_protocol_system
from_sync_state_key protocol = from_protocol_system (normalize_proto_name protocol)

unfoldable pub from_protocol_hint : Text → Option ProtocolKind
unfolding normalize_proto_name from_protocol_system from_protocol_type_name
from_protocol_hint protocol =
    let name = normalize_proto_name protocol in
    or_else (from_protocol_system name) (from_protocol_type_name name)
