-- ===== src/Gateway/NodeGuard.antt =====
-- Only nodes that prove their secret are answered by gateway/internal/gatewayhttp/nodecontrol.go.
use psychic_computing_machin.Common.{
  ℕ, ◌≡◌, refl, subst, Bool, true, false, ◌&&◌, ◌||◌, not, Option, none, some, arith, if_keeps,
  option_keeps, ◌==◌, nat_eq, list_eq,
}
use psychic_computing_machin.Common.Text.{Bytes, ascii, has_prefix, trim_prefix}
use psychic_computing_machin.Nodeproto.{Hashing, parse_token, hash_matches}
use psychic_computing_machin.Gateway.NodeApi.{
  NodeRow, Control, NodeAnswer, install_script, no_such_path, unauthorized, binary, unavailable,
  failed, binary_sum, config, status_of, auth_node, if_known, serve_node_api,
}

-- The node that an `Authorization` header proves to be.
pub record IsProved (hashing : Hashing) (c : Control) (authorization : Bytes) (n : NodeRow)
    (secret : Bytes) : Type 0 where
  pub id : ℕ
  pub bearer : has_prefix authorization (ascii "Bearer ") ≡ true
  pub token : parse_token (trim_prefix authorization (ascii "Bearer ")) ≡ some (id, secret)
  pub row : c.node_by_id id ≡ some n
  pub enabled : (n.status == ascii "disabled") ≡ false
  pub matches : hash_matches hashing secret n.token_hash ≡ true

-- What an answer gives away to nodes only.
abbrev pub is_private_answer : NodeAnswer → Bool
is_private_answer install_script = false
is_private_answer unauthorized = false
is_private_answer no_such_path = false
is_private_answer binary = true
is_private_answer unavailable = true
is_private_answer failed = true
is_private_answer (binary_sum sum) = true
is_private_answer (config cfg) = true
is_private_answer (status_of n) = true

row_pair :
    (m n : NodeRow) (s t : Bytes)
    → ◌≡◌ {A = Option (NodeRow × Bytes)} (some (m, s)) (some (n, t))
    → (m ≡ n) × (s ≡ t)
row_pair m n s t h = (ground arith, ground arith)

module _ (hashing : Hashing) (c : Control) where
  -- A node is authenticated only by a bearer token of its id and its secret, of which the database
  -- keeps the hash, while it is not disabled.
  pub auth_node-IsProved :
      (authorization secret : Bytes) (n : NodeRow)
      → auth_node hashing c authorization ≡ some (n, secret)
      → IsProved hashing c authorization n secret
  unfolding auth_node
  auth_node-IsProved authorization secret n =
      if_keeps Q (not (has_prefix authorization (ascii "Bearer "))) (λ _ e. ground arith)
        (λ bearer.
          option_keeps Q (parse_token (trim_prefix authorization (ascii "Bearer ")))
            (λ _ e. ground arith)
            (λ (id, s) token.
              option_keeps Q (c.node_by_id id) (λ _ e. ground arith)
                (λ m row.
                  if_keeps Q
                    ((m.status == ascii "disabled") || not (hash_matches hashing s m.token_hash))
                    (λ _ e. ground arith)
                    (λ good e.
                      let (same, rest) = row_pair m n s secret e in
                      subst (λ x. IsProved hashing c authorization x secret) same
                        (subst (λ x. IsProved hashing c authorization m x) rest
                          (record {
                            id = id;
                            bearer = ground arith;
                            token = token;
                            row = row;
                            enabled = ground arith;
                            matches = ground arith;
                          }))))))
    where
      Q : Option (NodeRow × Bytes) → Type 0
      Q r = r ≡ some (n, secret) → IsProved hashing c authorization n secret

  known-IsProved :
      (authorization : Bytes) (known : Option (NodeRow × Bytes))
      → auth_node hashing c authorization ≡ known
      → (f : NodeRow → Bytes → NodeAnswer) → is_private_answer (if_known hashing c known f) ≡ true
      → (n : NodeRow) × ((secret : Bytes) × IsProved hashing c authorization n secret)
  known-IsProved authorization none e f h = ground arith
  known-IsProved authorization (some (n, secret)) e f h =
      (n, (secret, auth_node-IsProved authorization secret n e))

  -- Except for the install script, the node API gives nothing to a caller that does not prove to be
  -- a node.
  pub serve_node_api_guarded :
      (method path authorization : Bytes)
      → is_private_answer (serve_node_api hashing c method path authorization) ≡ true
      → (n : NodeRow) × ((secret : Bytes) × IsProved hashing c authorization n secret)
  unfolding serve_node_api
  serve_node_api_guarded method path authorization =
      let path' = trim_prefix path (ascii "/_sv/node/") in
      let get = method == ascii "GET" in
      if_keeps Q ((path' == ascii "install.sh") && (get || (method == ascii "HEAD")))
        (λ _ e. ground arith)
        (λ _.
          if_keeps Q ((path' == ascii "binary") && get) (λ _. proved _)
            (λ _.
              if_keeps Q ((path' == ascii "binary.sha256") && get) (λ _. proved _)
                (λ _.
                  if_keeps Q ((path' == ascii "config") && get) (λ _. proved _)
                    (λ _.
                      if_keeps Q ((path' == ascii "status") && (method == ascii "POST"))
                        (λ _. proved _) (λ _ e. ground arith)))))
    where
      Q : NodeAnswer → Type 0
      Q a =
          is_private_answer a ≡ true
          → (n : NodeRow) × ((secret : Bytes) × IsProved hashing c authorization n secret)

      proved :
          (f : NodeRow → Bytes → NodeAnswer)
          → Q (if_known hashing c (auth_node hashing c authorization) f)
      proved f = known-IsProved authorization (auth_node hashing c authorization) refl f
