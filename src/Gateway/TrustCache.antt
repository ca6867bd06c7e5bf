-- ===== src/Gateway/TrustCache.antt =====
-- Where the answers of `isSourcePrivate` of gateway/internal/gatewayhttp/handler.go come from, over
-- any sequence of calls that share the handler's cache.
use psychic_computing_machin.Common.{
  ℕ, ◌-◌, ◌<◌, ◌≡◌, refl, sym, ap, ◌∙◌, Bool, true, false, Option, none, some, absent_not_present,
  some_injective, List, [], ◌∷◌, arith, not, nat_eq, ltb, if_keeps, option_keeps, ◌==◌, ==_iff,
}
use psychic_computing_machin.Common.Map.{lookup, lookup-insert, lookup-empty}
use psychic_computing_machin.Gateway.{
  Url, Stream, Services, Handler, TrustEntry, is_source_private, refresh_trust,
  source_trust_cache_ttl, or_public,
}

-- A call: the resolver as it answers then, the time, the stream and its entry address.
pub record Ask : Type 0 where
  pub services : Services
  pub now : ℕ
  pub stream : Stream
  pub source : Url

abbrev pub answer : Ask → Handler → Handler × Bool
answer a h = is_source_private a.services a.now a.stream a.source h

unfoldable pub asks : List Ask → Handler → Handler
asks [] h = h
asks (a ∷ rest) h = asks rest (answer a h).0

-- The call is among the last ones.
pub data IsAmong (a : Ask) : List Ask → Type 0 where
  here : {rest : List Ask} → IsAmong a (a ∷ rest)
  there : {b : Ask} {rest : List Ask} → IsAmong a rest → IsAmong a (b ∷ rest)

-- For a stream, the resolver told the call then that the host of its source is private.
pub record IsTold (id told_at : ℕ) (a : Ask) : Type 0 where
  pub of_stream : a.stream.id ≡ id
  pub at_time : a.now ≡ told_at
  pub private : a.services.resolves_private a.source.hostname ≡ some true

-- What the cache says is private, one of the calls was told.
abbrev IsSourced : List Ask → Handler → Type 0
IsSourced past h =
    (id : ℕ) (e : TrustEntry)
    → lookup id h.trust_cache ≡ some e
    → e.private ≡ true
    → (a : Ask) × (IsAmong a past × IsTold id e.checked_at a)

or_public_asked : (o : Option Bool) → or_public o ≡ true → o ≡ some true
or_public_asked none h = ground arith
or_public_asked (some true) h = refl
or_public_asked (some false) h = ground arith

wider : (past : List Ask) (h : Handler) (b : Ask) → IsSourced past h → IsSourced (b ∷ past) h
wider past h b k id e found p = let (a, (among, told)) = k id e found p in (a, (there among, told))

refresh_trust-IsSourced :
    (past : List Ask) (b : Ask) (h : Handler)
    → IsSourced past h
    → IsSourced (b ∷ past) (refresh_trust b.services b.now b.stream b.source h).0
unfolding refresh_trust
refresh_trust-IsSourced past b h k id e found p =
    let private = or_public (b.services.resolves_private b.source.hostname) in
    let entry : TrustEntry = record { private = private; checked_at = b.now } in
    if_keeps
      (λ (o : Option TrustEntry).
        o ≡ some e → (a : Ask) × (IsAmong a (b ∷ past) × IsTold id e.checked_at a))
      (b.stream.id == id)
      (λ same f.
        let e' = some_injective entry e f in
        (
          b,
          (
            here,
            record {
              of_stream = (==_iff b.stream.id id).0 same;
              at_time = ap (λ x. x.checked_at) e';
              private = or_public_asked _ (ap (λ x. x.private) e' ∙ p);
            },
          ),
        ))
      (λ other f. wider past h b k id e f p)
      (sym (lookup-insert b.stream.id id entry h.trust_cache) ∙ found)

answer-IsSourced :
    (past : List Ask) (b : Ask) (h : Handler)
    → IsSourced past h
    → IsSourced (b ∷ past) (answer b h).0
unfolding is_source_private
answer-IsSourced past b h k =
    let kept = wider past h b k in
    let asked = refresh_trust-IsSourced past b h k in
    if_keeps Q (not b.stream.trust_private_source) (λ _. kept)
      (λ _.
        option_keeps Q (lookup b.stream.id h.trust_cache) (λ _. asked)
          (λ e _.
            if_keeps Q (ltb (b.now - e.checked_at) source_trust_cache_ttl) (λ _. kept)
              (λ _. asked)))
  where
    Q : Handler × Bool → Type 0
    Q r = IsSourced (b ∷ past) r.0

unfoldable pub backwards : List Ask → List Ask → List Ask
backwards [] past = past
backwards (a ∷ rest) past = backwards rest (a ∷ past)

asks-IsSourced :
    (calls past : List Ask) (h : Handler)
    → IsSourced past h
    → IsSourced (backwards calls past) (asks calls h)
unfolding asks backwards
asks-IsSourced [] past h k = k
asks-IsSourced (b ∷ rest) past h k =
    asks-IsSourced rest (b ∷ past) (answer b h).0 (answer-IsSourced past b h k)

-- One of the calls of the stream was told that its host is private, less than five minutes ago.
abbrev pub IsVouched : List Ask → Ask → Type 0
IsVouched past b =
    (told_at : ℕ) × ((a : Ask) × (IsAmong a past
        × (IsTold b.stream.id told_at a × (b.now - told_at < source_trust_cache_ttl))))

answered_private :
    (past : List Ask) (b : Ask) (h : Handler)
    → IsSourced past h
    → (answer b h).1 ≡ true
    → (b.stream.trust_private_source ≡ true) × IsVouched (b ∷ past) b
unfolding is_source_private refresh_trust
answered_private past b h k =
    if_keeps Q (not b.stream.trust_private_source) (λ _ e. ground arith)
      (λ may.
        let trusted = trusted_then b.stream.trust_private_source may in
        option_keeps Q (lookup b.stream.id h.trust_cache) (λ _. refreshed trusted)
          (λ c found.
            if_keeps Q (ltb (b.now - c.checked_at) source_trust_cache_ttl)
              (λ fresh e.
                let (a, (among, told)) = k b.stream.id c found e in
                (trusted, (c.checked_at, (a, (there among, (told, ground (arith, fresh)))))))
              (λ _. refreshed trusted)))
  where
    Q : Handler × Bool → Type 0
    Q r = r.1 ≡ true → (b.stream.trust_private_source ≡ true) × IsVouched (b ∷ past) b

    trusted_then : (t : Bool) → not t ≡ false → t ≡ true
    trusted_then t h = ground arith

    refreshed :
        b.stream.trust_private_source ≡ true
        → or_public (b.services.resolves_private b.source.hostname) ≡ true
        → (b.stream.trust_private_source ≡ true) × IsVouched (b ∷ past) b
    refreshed trusted e = (
      trusted,
      (
        b.now,
        (
          b,
          (
            here,
            (
              record { of_stream = refl; at_time = refl; private = or_public_asked _ e },
              omega arith,
            ),
          ),
        ),
      ),
    )

-- From a handler with an empty cache, after any calls: a call is answered with private only if its
-- stream may have a private source, and one of the calls for that stream, this one or an earlier
-- one less than five minutes ago, was told by the resolver that the host of its own source is
-- private. The cache does not tell the hosts of a stream apart.
pub is_source_private-IsVouched :
    (calls : List Ask) (b : Ask) (h : Handler)
    → h.trust_cache ≡ []
    → (answer b (asks calls h)).1 ≡ true
    → (b.stream.trust_private_source ≡ true) × IsVouched (b ∷ backwards calls []) b
is_source_private-IsVouched calls b h fresh =
    answered_private (backwards calls []) b (asks calls h) (
      asks-IsSourced calls [] h (λ id e found.
        elim (absent_not_present _ e (ap (λ m. lookup id m) fresh ∙ lookup-empty id) found) [ ]))
