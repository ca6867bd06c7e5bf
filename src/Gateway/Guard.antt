-- ===== src/Gateway/Guard.antt =====
-- Which requests reach a stream through `ServeHTTP` of gateway/internal/gatewayhttp/handler.go.
use psychic_computing_machin.Common.{
  ℕ, ◌≡◌, refl, sym, ap, ◌∙◌, false, Option, none, some, Result, ok, err, arith, ◌==◌, eqb, length,
  nat_eq, list_eq, ◌||◌, ◌&&◌, not, subst, if_keeps, option_keeps,
}
use psychic_computing_machin.Common.Text.{Bytes, ascii, trim_prefix, has_prefix}
use psychic_computing_machin.Gateway.{
  Url, AccessPoint, TokenInfo, TokenStatus, StoreError, not_found, failed, touch_token_throttled,
  token_valid, token_invalid, token_revoked, token_expired, Services, Handler, Request, Response,
  node_api, not_allowed, notice, slate_page, missing, internal_error, temporary_failure, forbidden,
  replacement, entry, remux_resource, node_resource, resource, validate_token, resolve_prefix,
  route_target, route_resource, route_stream, route_token, route_checked, route_found, route_access,
  cut_path, serve_http, source_entry_url,
}

-- The access point whose stream a response gives to the viewer.
abbrev pub shown : Response → Option AccessPoint
shown (entry ap source prefix) = some ap
shown (remux_resource ap target) = some ap
shown (node_resource ap target) = some ap
shown (resource ap source target) = some ap
shown node_api = none
shown not_allowed = none
shown notice = none
shown slate_page = none
shown missing = none
shown internal_error = none
shown temporary_failure = none
shown forbidden = none
shown (replacement ap token whole) = none

pub record IsServed (point : AccessPoint) : Type 0 where
  pub enabled : (point.stream.status == ascii "disabled") ≡ false
  pub unrevoked : (point.status == ascii "revoked") ≡ false

-- No token is needed, or the one given is valid now.
pub data IsAdmitted (sv : Services) (now : ℕ) (point : AccessPoint) (raw : Bytes) : Type 0 where
  open_to_all : (point.visibility == ascii "private") ≡ false → IsAdmitted sv now point raw
  by_token :
      (info : TokenInfo)
      → validate_token sv now point.id raw ≡ ok info
      → info.status ≡ token_valid
      → IsAdmitted sv now point raw

module _ (sv : Services) (now : ℕ) where
  route_target-shown :
      (p q : AccessPoint) (source target : Url) (h : Handler)
      → shown (route_target sv now p source target h).1 ≡ some q
      → q ≡ p
  unfolding route_target
  route_target-shown p q source target h e = ground arith

  none_shown : {A : Type 0} (q : AccessPoint) → none ≡ some q → A
  none_shown q e = ground arith

  route_resource-shown :
      (p q : AccessPoint) (source : Url) (remainder : Bytes) (h : Handler)
      → shown (route_resource sv now p source remainder h).1 ≡ some q
      → q ≡ p
  unfolding route_resource
  route_resource-shown p q source remainder h =
      option_keeps Q (sv.decode_blob _ p.id) (λ _ e. none_shown q e)
        (λ raw _.
          option_keeps Q (sv.parse_url raw) (λ _ e. none_shown q e)
            (λ target _. route_target-shown p q source target h))
    where
      Q : Handler × Response → Type 0
      Q r = shown r.1 ≡ some q → q ≡ p

  route_stream-shown :
      (p q : AccessPoint) (token : Option TokenInfo) (prefix remainder : Bytes) (h : Handler)
      → shown (route_stream sv now p token prefix remainder h).1 ≡ some q
      → (q ≡ p) × IsServed p
  unfolding route_stream
  route_stream-shown p q token prefix remainder h =
      if_keeps Q ((p.stream.status == ascii "disabled") || (p.status == ascii "revoked"))
        (λ _ e. none_shown q e)
        (λ live.
          option_keeps Q (source_entry_url sv p.stream) (λ _ e. none_shown q e)
            (λ source _.
              if_keeps Q (eqb (length remainder) 0) (λ _ e. (ground arith, is_served live))
                (λ _ e. (route_resource-shown p q source remainder h e, is_served live))))
    where
      Q : Handler × Response → Type 0
      Q r = shown r.1 ≡ some q → (q ≡ p) × IsServed p

      is_served :
          ((p.stream.status == ascii "disabled") || (p.status == ascii "revoked")) ≡ false
          → IsServed p
      is_served live = record { enabled = ground arith; unrevoked = ground arith }

  route_token-shown :
      (p q : AccessPoint) (info : TokenInfo) (prefix remainder : Bytes) (h : Handler)
      (s : TokenStatus)
      → shown (route_token sv now p info prefix remainder h s).1 ≡ some q
      → (s ≡ token_valid) × ((q ≡ p) × IsServed p)
  unfolding route_token
  route_token-shown p q info prefix remainder h token_invalid e = none_shown q e
  route_token-shown p q info prefix remainder h token_revoked e = none_shown q e
  route_token-shown p q info prefix remainder h token_expired e = none_shown q e
  route_token-shown p q info prefix remainder h token_valid e = (
    refl,
    route_stream-shown p q (some info) prefix remainder (touch_token_throttled now info.id h) e,
  )

  -- The token's check, whatever it gives.
  checked-shown :
      (p q : AccessPoint) (raw prefix remainder : Bytes) (h : Handler)
      (r : Result StoreError TokenInfo)
      → validate_token sv now p.id raw ≡ r
      → shown (route_checked sv now p prefix remainder h r).1 ≡ some q
      → IsAdmitted sv now p raw × ((q ≡ p) × IsServed p)
  unfolding route_checked
  checked-shown p q raw prefix remainder h (err x) v e = none_shown q e
  checked-shown p q raw prefix remainder h (ok info) v e =
      let (valid, rest) = route_token-shown p q info prefix remainder h info.status e in
      (by_token info v valid, rest)

  route_access-shown :
      (p q : AccessPoint) (raw prefix remainder : Bytes) (h : Handler)
      → shown (route_access sv now p raw prefix remainder h).1 ≡ some q
      → IsAdmitted sv now p raw × ((q ≡ p) × IsServed p)
  unfolding route_access
  route_access-shown p q raw prefix remainder h =
      if_keeps Q (not (p.visibility == ascii "private"))
        (λ open_point e.
          (open_to_all (ground arith), route_stream-shown p q none prefix remainder h e))
        (λ _. checked-shown p q raw prefix remainder h (validate_token sv now p.id raw) refl)
    where
      Q : Handler × Response → Type 0
      Q r = shown r.1 ≡ some q → IsAdmitted sv now p raw × ((q ≡ p) × IsServed p)

  resolved-shown :
      (q : AccessPoint) (prefix remainder : Bytes) (h : Handler)
      (found : Result StoreError (AccessPoint × Bytes))
      → resolve_prefix sv prefix ≡ found
      → shown (route_found sv now prefix remainder h found).1 ≡ some q
      → (raw : Bytes) × ((resolve_prefix sv prefix ≡ ok (q, raw))
          × (IsAdmitted sv now q raw × IsServed q))
  unfolding route_found
  resolved-shown q prefix remainder h (err not_found) found e = none_shown q e
  resolved-shown q prefix remainder h (err failed) found e = none_shown q e
  resolved-shown q prefix remainder h (ok (p, raw)) found e =
      let (admitted, (same, served)) = route_access-shown p q raw prefix remainder h e in
      (
        raw,
        (
          found ∙ ap (λ x. ok (x, raw)) (sym same),
          (
            subst (λ x. IsAdmitted sv now x raw) (sym same) admitted,
            subst (λ x. IsServed x) (sym same) served,
          ),
        ),
      )

-- Where `ServeHTTP` gives a stream to the viewer, as an entry or as any resource, the path resolves
-- to its access point, which is not revoked, its stream is not disabled, and the access point is
-- not private or the token in the path is valid at that moment.
pub serve_http_guarded :
    (sv : Services) (now : ℕ) (r : Request) (h : Handler) (q : AccessPoint)
    → shown (serve_http sv now r h).1 ≡ some q
    → (raw : Bytes) × ((resolve_prefix sv (cut_path (trim_prefix r.path (ascii "/"))).0
          ≡ ok (q, raw))
        × (IsAdmitted sv now q raw × IsServed q))
unfolding serve_http
serve_http_guarded sv now r h q =
    let path = trim_prefix r.path (ascii "/") in
    let (prefix, remainder) = cut_path path in
    if_keeps Q (has_prefix r.path (ascii "/_sv/node/")) (λ _ e. none_shown sv now q e)
      (λ _.
        if_keeps Q (not (r.method == ascii "GET") && not (r.method == ascii "HEAD"))
          (λ _ e. none_shown sv now q e)
          (λ _.
            if_keeps Q (path == ascii "_sv/notice.png") (λ _ e. none_shown sv now q e)
              (λ _.
                if_keeps Q ((path == ascii "_sv") || has_prefix path (ascii "_sv/"))
                  (λ _ e. none_shown sv now q e)
                  (λ _.
                    resolved-shown sv now q prefix remainder h (resolve_prefix sv prefix) refl))))
  where
    Q : Handler × Response → Type 0
    Q s =
        shown s.1 ≡ some q
        → (raw : Bytes) × ((resolve_prefix sv (cut_path (trim_prefix r.path (ascii "/"))).0
              ≡ ok (q, raw))
            × (IsAdmitted sv now q raw × IsServed q))
