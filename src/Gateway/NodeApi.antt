-- ===== src/Gateway/NodeApi.antt =====
-- The control side of relay nodes, gateway/internal/gatewayhttp/nodecontrol.go: who may call the
-- node API, and what configuration a node is given.
use psychic_computing_machin.Common.{
  ℕ, ◌&&◌, ◌||◌, not, Option, none, some, List, [], ◌∷◌, if◌then◌else◌, ◌==◌, nat_eq, list_eq,
}
use psychic_computing_machin.Common.Text.{Bytes, ascii, has_prefix, trim_prefix}
use psychic_computing_machin.Common.Decimal.{ℤ, pos}
use psychic_computing_machin.Nodeproto.{Hashing, parse_token, hash_matches, config_key}
use psychic_computing_machin.Node.{Config, StreamConfig}
use psychic_computing_machin.Gateway.{Stream}

-- A row of `nodes`.
pub record NodeRow : Type 0 where
  pub id : ℕ
  pub token_hash : Bytes
  pub status : Bytes

-- The queries, where none is an error or a missing row; the two halves of secretbox, where the
-- gateway may have no key; and the hash of the executable.
pub record Control : Type 0 where
  pub node_by_id : ℕ → Option NodeRow
  pub node_streams : ℕ → Option (List Stream)
  pub node_revocations : ℕ → Option (List ℤ × List ℤ)
  pub decrypt_stored : Option (Bytes → Option Bytes)
  pub encrypt_for : Bytes → Bytes → Option Bytes
  pub executable_sum : Option Bytes

pub data NodeAnswer : Type 0 where
  install_script unauthorized binary unavailable failed no_such_path : NodeAnswer
  binary_sum : Bytes → NodeAnswer
  config : Config → NodeAnswer
  status_of : NodeRow → NodeAnswer

module _ (hashing : Hashing) (c : Control) where
  unfoldable pub auth_node : Bytes → Option (NodeRow × Bytes)
  auth_node authorization =
      if not (has_prefix authorization (ascii "Bearer "))
      then none
      else elim (parse_token (trim_prefix authorization (ascii "Bearer "))) [
        | none ↦ none
        | some (id, secret) ↦ elim (c.node_by_id id) [
          | none ↦ none
          | some n ↦
              if (n.status == ascii "disabled") || not (hash_matches hashing secret n.token_hash)
              then none
              else some (n, secret)
        ]
      ]

  -- The password of a source, encrypted again under the node's own key.
  unfoldable pub recrypt : Bytes → Bytes → Option Bytes
  recrypt key encrypted = elim c.decrypt_stored [
    | none ↦ none
    | some decrypt ↦ elim (decrypt encrypted) [
      | none ↦ none
      | some password ↦ c.encrypt_for key password
    ]
  ]

  abbrev plain_stream : Stream → StreamConfig
  plain_stream st = record {
    id = st.id;
    source_type = st.source_type;
    source_url = st.source_url;
    source_username = [];
    source_password_enc = [];
    trust_private_source = st.trust_private_source;
  }

  -- none: the stream is left out, since its credentials cannot be passed on.
  unfoldable pub stream_config : Bytes → Stream → Option StreamConfig
  unfolding recrypt
  stream_config key st = elim st.source_username [
    | none ↦ some (plain_stream st)
    | some username ↦ elim st.source_password_enc [
      | none ↦ some (plain_stream st)
      | some encrypted ↦ elim (recrypt key encrypted) [
        | none ↦ none
        | some enc ↦
            some
              (record (plain_stream st) { source_username = username; source_password_enc = enc })
      ]
    ]
  ]

  unfoldable pub stream_configs : Bytes → List Stream → List StreamConfig
  unfolding stream_config
  stream_configs key [] = []
  stream_configs key (st ∷ sts) =
      let rest = stream_configs key sts in
      elim (stream_config key st) [ none ↦ rest | some sc ↦ sc ∷ rest ]

  -- The field `server_time`, which nodes do not read, is left out.
  unfoldable pub serve_node_config : NodeRow → Bytes → NodeAnswer
  unfolding stream_configs
  serve_node_config n secret = elim (c.node_streams n.id) [
    | none ↦ failed
    | some streams ↦ elim (c.node_revocations n.id) [
      | none ↦ failed
      | some (aps, tokens) ↦ config (record {
        node_id = n.id;
        poll_seconds = pos 10;
        streams = stream_configs (config_key hashing secret) streams;
        revoked_access_points = aps;
        revoked_tokens = tokens;
      })
    ]
  ]

  abbrev pub if_known : Option (NodeRow × Bytes) → (NodeRow → Bytes → NodeAnswer) → NodeAnswer
  if_known none f = unauthorized
  if_known (some (n, secret)) f = f n secret

  unfoldable pub serve_node_api : Bytes → Bytes → Bytes → NodeAnswer
  unfolding auth_node serve_node_config
  serve_node_api method full_path authorization =
      let path = trim_prefix full_path (ascii "/_sv/node/") in
      let known = auth_node authorization in
      let get = method == ascii "GET" in
      if (path == ascii "install.sh") && (get || (method == ascii "HEAD"))
      then install_script
      else if (path == ascii "binary") && get
      then if_known known (λ n secret. binary)
      else if (path == ascii "binary.sha256") && get
      then if_known known
          (λ n secret. elim c.executable_sum [ none ↦ unavailable | some sum ↦ binary_sum sum ])
      else if (path == ascii "config") && get
      then if_known known (λ n secret. serve_node_config n secret)
      else if (path == ascii "status") && (method == ascii "POST")
      then if_known known (λ n secret. status_of n)
      else no_such_path
