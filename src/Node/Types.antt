-- ===== src/Node/Types.antt =====
-- The state of a relay node of gateway/internal/node/node.go and the documents of
-- gateway/internal/nodeproto/nodeproto.go. Identifiers of streams are natural numbers, those that a
-- viewer's URL carries are 64-bit integers; times are nanoseconds.
use psychic_computing_machin.Common.{ℕ, ◌*◌, Bool, false, Option, List, []}
use psychic_computing_machin.Common.Text.{Bytes}
use psychic_computing_machin.Common.Map.{Map}
use psychic_computing_machin.Common.Decimal.{ℤ}
use psychic_computing_machin.Remux.{Manager, second}

-- nodeproto.StreamConfig
pub record StreamConfig : Type 0 where
  pub id : ℕ
  pub source_type : Bytes
  pub source_url : Bytes
  pub source_username : Bytes
  pub source_password_enc : Bytes
  pub trust_private_source : Bool

-- nodeproto.Config
pub record Config : Type 0 where
  pub node_id : ℕ
  pub poll_seconds : ℤ
  pub streams : List StreamConfig
  pub revoked_access_points : List ℤ
  pub revoked_tokens : List ℤ

-- The fields of store.Stream that a node fills in; `Status` is always active and `AllowRemux` true.
pub record Stream : Type 0 where
  pub id : ℕ
  pub source_type : Bytes
  pub source_url : Bytes
  pub source_username : Option Bytes
  pub source_password_enc : Option Bytes
  pub trust_private_source : Bool

pub record StreamStatus : Type 0 where
  pub state : Bytes
  pub detail : Bytes
  pub viewers : ℕ

pub record Node : Type 0 where
  pub id : ℕ
  pub secret : Bytes
  pub streams : List Stream
  pub assigned : List ℕ
  pub revoked_aps : List ℤ
  pub revoked_tokens : List ℤ
  pub poll_every : ℕ
  pub runtime : Map ℕ StreamStatus
  pub viewers : Map ℕ (Map Bytes ℕ)
  pub have_config : Bool
  pub last_config_at : ℕ
  pub remux : Manager

abbrev pub config_max_age : ℕ
config_max_age = 300 * second

-- `New` on a token that parses.
unfoldable pub new_node : ℕ → Bytes → Manager → Node
new_node id secret remux = record {
  id = id;
  secret = secret;
  streams = [];
  assigned = [];
  revoked_aps = [];
  revoked_tokens = [];
  poll_every = 10 * second;
  runtime = [];
  viewers = [];
  have_config = false;
  last_config_at = 0;
  remux = remux;
}
