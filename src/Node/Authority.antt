-- ===== src/Node/Authority.antt =====
-- Who gets media from a relay node of gateway/internal/node/node.go.
use psychic_computing_machin.Common.{
  ℕ, ◌+◌, ◌<◌, ◌≡◌, Bool, true, false, ◌⊎◌, inl, inr, none, some, Option-cases, [], arith, contains,
  nat_eq, list_eq, same_list_iff, subst,
}
use psychic_computing_machin.Common.Text.{Bytes, ascii}
use psychic_computing_machin.Common.Decimal.{pos, int_eq, same_int_iff}
use psychic_computing_machin.Nodeproto.{Hashing, verify}
use psychic_computing_machin.Node.{
  Node, config_max_age, clear_config, expire_config, Reply, replied, unreachable, poll_once,
  Request, Host, Answer, status, playlist, segment, healthy, Grant, read_grant, is_past, is_granted,
  is_allowed, serve_stream, route, serve,
}

-- Whether a viewer gets a playlist or a segment.
abbrev pub is_media : Answer → Bool
is_media healthy = false
is_media (status _) = false
is_media (playlist _) = true
is_media (segment _) = true

-- Without a configuration a node has nothing assigned.
abbrev pub IsConfigured : Node → Type 0
IsConfigured n = n.have_config ≡ false → (n.assigned ≡ []) × (n.streams ≡ [])

-- What the node has checked of a request that it answers with media.
pub record IsAuthorized (h : Hashing) (now : ℕ) (r : Request) (n : Node) : Type 0 where
  pub method : (r.method ≡ ascii "GET") ⊎ (r.method ≡ ascii "HEAD")
  pub stream_id : ℕ
  pub name : Bytes
  pub grant : Grant
  pub routed : route r.path ≡ some (stream_id, name)
  pub granted : read_grant r ≡ some grant
  pub in_time : is_past now grant.exp ≡ false
  pub signed : verify h n.secret (pos stream_id) grant.ap grant.tok grant.exp grant.sig ≡ true
  pub assigned : contains stream_id n.assigned ≡ true
  pub access_point : contains grant.ap n.revoked_aps ≡ false
  pub token : (grant.tok ≡ pos 0) ⊎ (contains grant.tok n.revoked_tokens ≡ false)
  pub configured : n.have_config ≡ true
  pub fresh : now < n.last_config_at + config_max_age

expire_config_fresh :
    (now : ℕ) (n : Node) (s : ℕ)
    → IsConfigured n
    → contains s (expire_config now n).assigned ≡ true
    → (expire_config now n ≡ n) × (n.have_config ≡ true) × (now < n.last_config_at + config_max_age)
unfolding expire_config clear_config
expire_config_fresh now n s c h = ground (arith, c)

serve_stream_checks :
    (h : Hashing) (host : Host) (now s : ℕ) (name : Bytes) (r : Request) (n : Node)
    → is_media (serve_stream h host now s name r n).1 ≡ true
    → (g : Grant) × (read_grant r ≡ some g)
      × (is_granted h now s g n ≡ true)
      × (is_allowed s g n ≡ true)
unfolding serve_stream
serve_stream_checks h host now s name r n m = elim (Option-cases (read_grant r)) [
  | inl e ↦ absurd (ground (arith, e))
  | inr (g, e) ↦ (g, e, ground (arith, e), ground (arith, e))
]

-- The checks on a stream, a grant and a node, as propositions.
authorize :
    (h : Hashing) (now s : ℕ) (name : Bytes) (r : Request) (g : Grant) (n : Node)
    → IsConfigured n
    → (r.method ≡ ascii "GET") ⊎ (r.method ≡ ascii "HEAD")
    → route r.path ≡ some (s, name)
    → read_grant r ≡ some g
    → is_granted h now s g (expire_config now n) ≡ true
    → is_allowed s g (expire_config now n) ≡ true
    → IsAuthorized h now r n
unfolding is_granted is_allowed
authorize h now s name r g n c method routed granted good allowed =
    let (same, configured, fresh) = expire_config_fresh now n s c (ground arith) in
    record {
      method = method;
      stream_id = s;
      name = name;
      grant = g;
      routed = routed;
      granted = granted;
      in_time = ground arith;
      signed =
          subst (λ (m : Node). verify h m.secret (pos s) g.ap g.tok g.exp g.sig ≡ true) same
            (ground arith);
      assigned = subst (λ (m : Node). contains s m.assigned ≡ true) same (ground arith);
      access_point = subst (λ (m : Node). contains g.ap m.revoked_aps ≡ false) same (ground arith);
      token =
          subst (λ (m : Node). (g.tok ≡ pos 0) ⊎ (contains g.tok m.revoked_tokens ≡ false)) same
            (ground (arith, same_int_iff g.tok (pos 0)));
      configured = configured;
      fresh = fresh;
    }

-- A node whose assignments come from a configuration answers with a playlist or a segment only a GET
-- or HEAD request for a stream that is assigned to it, with a grant that has not expired and whose
-- signature verifies for that stream, whose access point is not revoked and whose token is none or
-- not revoked, and only while its configuration is younger than five minutes.
pub serve-IsAuthorized :
    (h : Hashing) (host : Host) (now : ℕ) (r : Request) (n : Node)
    → IsConfigured n
    → is_media (serve h host now r n).1 ≡ true
    → IsAuthorized h now r n
unfolding serve
serve-IsAuthorized h host now r n c m = elim (Option-cases (route r.path)) [
  | inl e ↦ absurd (ground (arith, e))
  | inr ((s, name), e) ↦
      let (g, granted, good, allowed) =
        serve_stream_checks h host now s name r (expire_config now n) (ground (arith, e)) in
      authorize h now s name r g n c
        (ground
          (arith, same_list_iff r.method (ascii "GET"), same_list_iff r.method (ascii "HEAD")))
        e granted good allowed
]

clear_config-IsConfigured : (n : Node) → IsConfigured n → IsConfigured (clear_config n)
unfolding clear_config
clear_config-IsConfigured n c = ground (arith, c)

pub expire_config-IsConfigured :
    (now : ℕ) (n : Node) → IsConfigured n → IsConfigured (expire_config now n)
unfolding expire_config
expire_config-IsConfigured now n c = ground (arith, c)

pub poll_once-IsConfigured :
    (now : ℕ) (reply : Reply) (n : Node) → IsConfigured n → IsConfigured (poll_once now reply n).0
unfolding poll_once
poll_once-IsConfigured now unreachable n c = c
poll_once-IsConfigured now (replied code none) n c = ground (arith, c)
poll_once-IsConfigured now (replied code (some cfg)) n c = ground (arith, c)
