-- ===== src/Node/Polling.antt =====
-- How a relay node of gateway/internal/node/node.go follows the answers of its control plane.
use psychic_computing_machin.Common.{
  ℕ, ◌*◌, ◌≤◌, ◌≡◌, ◌≢◌, refl, ap, true, false, ◌||◌, ◌⊎◌, inl, inr, Option, none, some,
  Option-cases, Bool-cases, List, [], ◌∷◌, arith, contains, nat_eq, list_eq, eqb,
}
use psychic_computing_machin.Common.Text.{Bytes}
use psychic_computing_machin.Common.Decimal.{ℤ, pos, negsuc, int_eq}
use psychic_computing_machin.Nodeproto.{Hashing}
use psychic_computing_machin.Remux.{second, Manager}
use psychic_computing_machin.Node.{
  Config, Node, new_node, apply, clear_config, Reply, replied, unreachable, PollError,
  control_unreachable, unauthorized, bad_status, invalid_document, wrong_node, poll_once,
  poll_round, poll_interval, seconds, Request, Host, Grant, read_grant, serve,
}
use psychic_computing_machin.Node.Authority.{
  IsConfigured, is_media, serve-IsAuthorized, poll_once-IsConfigured, expire_config-IsConfigured,
}

-- Whatever number of seconds the control plane sends, negative or so large that it wraps, the node
-- polls every five to sixty seconds.
pub poll_interval_bounds :
    (s : ℤ) → (5 * second ≤ poll_interval (seconds s)) × (poll_interval (seconds s) ≤ 60 * second)
unfolding poll_interval seconds
poll_interval_bounds (pos n) = ground arith
poll_interval_bounds (negsuc n) = ground arith

-- A poll that fails leaves the node as it was, unless the control plane refused the node's
-- credentials, which leaves it without a configuration and with nothing assigned; a poll that
-- succeeds was answered 200 with a configuration for this very node, which is then in force.
pub poll_once_outcomes :
    (now : ℕ) (reply : Reply) (n : Node)
    → IsConfigured n
    → ((poll_once now reply n).1 ≡ some unauthorized)
        × ((poll_once now reply n).0.have_config ≡ false)
        × ((poll_once now reply n).0.assigned ≡ [])
      ⊎ ((e : PollError) × ((poll_once now reply n).1 ≡ some e)
          × (e ≢ unauthorized)
          × ((poll_once now reply n).0 ≡ n))
      ⊎ ((cfg : Config) × (reply ≡ replied 200 (some cfg))
          × (cfg.node_id ≡ n.id)
          × (poll_once now reply n ≡ (apply now cfg n, none)))
unfolding poll_once clear_config
poll_once_outcomes now unreachable n c = inr (inl (control_unreachable, refl, (cc), refl))
poll_once_outcomes now (replied code body) n c = elim (Bool-cases (eqb code 401 || eqb code 403)) [
  | inl e ↦ inl (ground (arith, e), ground (arith, e), ground (arith, e, c))
  | inr e ↦ elim (Bool-cases (eqb code 200)) [
    | inr f ↦ inr (inl (bad_status, ground (arith, e, f), (cc), ground (arith, e, f)))
    | inl f ↦ elim (Option-cases body) [
      | inl b ↦ inr (inl (invalid_document, ground (arith, e, f, b), (cc), ground (arith, e, f, b)))
      | inr (cfg, b) ↦ elim (Bool-cases (eqb cfg.node_id n.id)) [
        | inr d ↦
            inr (inl (wrong_node, ground (arith, e, f, b, d), (cc), ground (arith, e, f, b, d)))
        | inl d ↦
            inr (inr (cfg, ground (arith, f, b), ground (arith, d), ground (arith, e, f, b, d)))
      ]
    ]
  ]
]

-- Rounds of polling, each with the time of the poll and the time of the age check.
unfoldable pub rounds : List (ℕ × ℕ × Reply) → Node → Node
rounds [] n = n
rounds ((now, later, reply) ∷ rest) n = rounds rest (poll_round now later reply n)

rounds-IsConfigured :
    (rs : List (ℕ × ℕ × Reply)) (n : Node) → IsConfigured n → IsConfigured (rounds rs n)
unfolding rounds poll_round
rounds-IsConfigured [] n c = c
rounds-IsConfigured ((now, later, reply) ∷ rest) n c =
    rounds-IsConfigured rest _
      (expire_config-IsConfigured later _ (poll_once-IsConfigured now reply n c))

new_node-IsConfigured :
    (id : ℕ) (secret : Bytes) (m : Manager) → IsConfigured (new_node id secret m)
unfolding new_node
new_node-IsConfigured id secret m e = (refl, refl)

-- With nothing assigned, no request gets media.
unassigned_refused :
    (h : Hashing) (host : Host) (now : ℕ) (r : Request) (n : Node)
    → IsConfigured n
    → n.assigned ≡ []
    → is_media (serve h host now r n).1 ≡ false
unassigned_refused h host now r n c e = elim (Bool-cases (is_media (serve h host now r n).1)) [
  | inr f ↦ f
  | inl f ↦
      let a = serve-IsAuthorized h host now r n c f in
      absurd (ground (arith, ap (contains a.stream_id) e, a.assigned))
]

revoked_refused :
    (h : Hashing) (host : Host) (now : ℕ) (r : Request) (g : Grant) (n : Node)
    → IsConfigured n
    → read_grant r ≡ some g
    → contains g.ap n.revoked_aps ≡ true
    → is_media (serve h host now r n).1 ≡ false
revoked_refused h host now r g n c e v = elim (Bool-cases (is_media (serve h host now r n).1)) [
  | inr f ↦ f
  | inl f ↦
      let a = serve-IsAuthorized h host now r n c f in
      let same : a.grant ≡ g = ground (arith, a.granted, e) in
      absurd
        (ground (arith, ap (λ (x : Grant). contains x.ap n.revoked_aps) same, a.access_point, v))
]

-- From a new node, after any rounds of polling: once the control plane has refused the node's
-- credentials, no request gets media.
pub rejected_poll_stops :
    (h : Hashing) (host : Host) (id : ℕ) (secret : Bytes) (m : Manager) (rs : List (ℕ × ℕ × Reply))
    (now later code : ℕ) (body : Option Config) (r : Request)
    → (code ≡ 401) ⊎ (code ≡ 403)
    → is_media
        (serve h host later r
          (poll_once now (replied code body) (rounds rs (new_node id secret m))).0).1
      ≡ false
rejected_poll_stops h host id secret m rs now later code body r refused =
    let n = rounds rs (new_node id secret m) in
    let c = rounds-IsConfigured rs _ (new_node-IsConfigured id secret m) in
    unassigned_refused h host later r _ (poll_once-IsConfigured now (replied code body) n c)
      (unfold poll_once clear_config in ground (arith, refused, c))

-- From a new node, after any rounds of polling: once the control plane has sent a configuration for
-- the node that revokes an access point, no request with a grant of that access point gets media,
-- though its signature still verifies.
pub revoked_poll_stops :
    (h : Hashing) (host : Host) (id : ℕ) (secret : Bytes) (m : Manager) (rs : List (ℕ × ℕ × Reply))
    (now later : ℕ) (cfg : Config) (r : Request) (g : Grant)
    → cfg.node_id ≡ (rounds rs (new_node id secret m)).id
    → read_grant r ≡ some g
    → contains g.ap cfg.revoked_access_points ≡ true
    → is_media
        (serve h host later r
          (poll_once now (replied 200 (some cfg)) (rounds rs (new_node id secret m))).0).1
      ≡ false
revoked_poll_stops h host id secret m rs now later cfg r g own granted revoked =
    let n = rounds rs (new_node id secret m) in
    let c = rounds-IsConfigured rs _ (new_node-IsConfigured id secret m) in
    revoked_refused h host later r g _ (poll_once-IsConfigured now (replied 200 (some cfg)) n c)
      granted (unfold poll_once apply in ground (arith, own, revoked))
