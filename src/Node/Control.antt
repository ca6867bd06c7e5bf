-- ===== src/Node/Control.antt =====
-- How a relay node follows its control plane: the configuration and runtime parts of
-- gateway/internal/node/node.go. The response of the control plane is an argument.
use psychic_computing_machin.Common.{
  ℕ, suc, ◌-◌, ◌*◌, ◌%◌, ◌^◌, true, false, ◌&&◌, ◌||◌, not, Option, none, some, List, [], ◌∷◌, map,
  ltb, leb, eqb, if◌then◌else◌, length, contains, nat_eq, list_eq,
}
use psychic_computing_machin.Common.Text.{Bytes}
use psychic_computing_machin.Common.Map.{Map, lookup, insert}
use psychic_computing_machin.Common.Decimal.{ℤ, pos, negsuc}
use psychic_computing_machin.Remux.{second}
use psychic_computing_machin.Node.Types.{
  StreamConfig, Config, Stream, StreamStatus, Node, config_max_age,
}

-- `time.Duration(s) * time.Second` wraps in 64 bits; `none` is a negative duration.
unfoldable pub seconds : ℤ → Option ℕ
seconds (pos n) = let w = (n * second) % 2 ^ 64 in if ltb w (2 ^ 63) then some w else none
seconds (negsuc n) =
    let w = (2 ^ 64 - (suc n * second) % 2 ^ 64) % 2 ^ 64 in if ltb w (2 ^ 63) then some w else none

unfoldable pub poll_interval : Option ℕ → ℕ
poll_interval none = 10 * second
poll_interval (some poll) =
    if ltb poll (5 * second) || ltb (60 * second) poll then 10 * second else poll

unfoldable pub to_stream : StreamConfig → Stream
to_stream sc =
    let both =
      not (eqb (length sc.source_username) 0) && not (eqb (length sc.source_password_enc) 0) in
    record {
      id = sc.id;
      source_type = sc.source_type;
      source_url = sc.source_url;
      source_username = if both then some sc.source_username else none;
      source_password_enc = if both then some sc.source_password_enc else none;
      trust_private_source = sc.trust_private_source;
    }

unfoldable pub apply : ℕ → Config → Node → Node
unfolding to_stream poll_interval seconds
apply now cfg n = record n {
  streams = map to_stream cfg.streams;
  assigned = map (λ sc. sc.id) cfg.streams;
  revoked_aps = cfg.revoked_access_points;
  revoked_tokens = cfg.revoked_tokens;
  poll_every = poll_interval (seconds cfg.poll_seconds);
  have_config = true;
  last_config_at = now;
}

unfoldable pub clear_config : Node → Node
clear_config n = if not n.have_config then n else record n {
  streams = [];
  assigned = [];
  revoked_aps = [];
  revoked_tokens = [];
  viewers = [];
  have_config = false;
}

unfoldable pub expire_config : ℕ → Node → Node
unfolding clear_config
expire_config now n =
    if n.have_config && leb config_max_age (now - n.last_config_at) then clear_config n else n

-- What the control plane answers: no connection, or a status and, where the body decodes, a
-- configuration.
pub data Reply : Type 0 where
  unreachable : Reply
  replied : ℕ → Option Config → Reply

pub data PollError : Type 0 where
  control_unreachable unauthorized bad_status invalid_document wrong_node : PollError

unfoldable pub poll_once : ℕ → Reply → Node → Node × Option PollError
unfolding apply clear_config
poll_once now unreachable n = (n, some control_unreachable)
poll_once now (replied status body) n =
    if eqb status 401 || eqb status 403
    then (clear_config n, some unauthorized)
    else if not (eqb status 200)
    then (n, some bad_status)
    else elim body [
      | none ↦ (n, some invalid_document)
      | some cfg ↦
          if not (eqb cfg.node_id n.id) then (n, some wrong_node) else (apply now cfg n, none)
    ]

-- One round of `pollLoop`: the poll, then the age check.
unfoldable pub poll_round : ℕ → ℕ → Reply → Node → Node
unfolding poll_once expire_config
poll_round now later reply n = expire_config later (poll_once now reply n).0

-- The methods of `RelayStore`.
unfoldable pub always_on_streams : Node → List Stream
always_on_streams n = if not n.have_config then [] else n.streams

unfoldable pub set_runtime : ℕ → Bytes → Bytes → Node → Node
set_runtime id state detail n = record n {
  runtime = insert id (record { state = state; detail = detail; viewers = 0 }) n.runtime;
}

unfoldable pub keep_only : List ℕ → Map ℕ StreamStatus → Map ℕ StreamStatus
keep_only keep [] = []
keep_only keep ((id, st) ∷ rest) =
    if contains id keep then (id, st) ∷ keep_only keep rest else keep_only keep rest

unfoldable pub clear_runtime : List ℕ → Node → Node
unfolding keep_only
clear_runtime keep n = record n { runtime = keep_only keep n.runtime }

abbrev pub seen_by : Option (Map Bytes ℕ) → Map Bytes ℕ
seen_by none = []
seen_by (some seen) = seen

unfoldable pub record_viewer : ℕ → ℕ → Bytes → Node → Node
record_viewer now stream_id key n = record n {
  viewers = insert stream_id (insert key now (seen_by (lookup stream_id n.viewers))) n.viewers;
}
