-- ===== src/Gateway/Routing.antt =====
-- `ServeHTTP` of gateway/internal/gatewayhttp/handler.go, up to the handlers that talk to the source
-- and write the answer, and `isNodeTarget` of nodecontrol.go.
use psychic_computing_machin.Common.{
  ℕ, suc, Bool, false, ◌&&◌, ◌||◌, not, Option, none, some, [], ◌++◌, length, take, drop,
  if◌then◌else◌, ◌==◌, eqb, nat_eq, list_eq, Result, ok, err,
}
use psychic_computing_machin.Common.Text.{
  Bytes, ascii, has_prefix, trim_prefix, index, last_index_byte,
}
use psychic_computing_machin.Common.Decimal.{format_nat}
use psychic_computing_machin.Gateway.Types.{
  Url, AccessPoint, StoreError, not_found, failed, TokenInfo, TokenStatus, token_invalid,
  token_valid, token_revoked, token_expired, Services, Handler, Request, Response, node_api,
  not_allowed, notice, slate_page, missing, internal_error, temporary_failure, forbidden,
  replacement, entry, remux_resource, node_resource, resource,
}
use psychic_computing_machin.Gateway.Target.{
  check_fetch_target, is_source_private, source_entry_url,
}
use psychic_computing_machin.Gateway.Access.{
  validate_token, touch_token_throttled, strip_known_ext, resolve_prefix,
}

-- The target lies under the stream's own relay node.
unfoldable pub is_node_target : Services → AccessPoint → Url → Bool
is_node_target sv ap target = elim ap.stream.node [
  | none ↦ false
  | some n ↦ elim (sv.parse_url n.public_url) [
    | none ↦ false
    | some base ↦
        (target.scheme == base.scheme)
        && ((target.host == base.host)
            && has_prefix target.path (ascii "/n/" ++ (format_nat ap.stream.id ++ ascii "/")))
  ]
]

-- The blob of a resource request: the extension after the last dot is for show.
unfoldable pub blob_of : Bytes → Bytes
blob_of remainder =
    let blob = trim_prefix remainder (ascii "r/") in
    elim (last_index_byte blob b'.') [ none ↦ blob | some i ↦ take i blob ]

-- A resource request of a viewer who may see the stream, once the blob is decoded.
unfoldable pub route_target : Services → ℕ → AccessPoint → Url → Url → Handler → Handler × Response
unfolding is_node_target check_fetch_target is_source_private
route_target sv now ap source_entry target h =
    if target.scheme == ascii "sv-remux"
    then (h, if ap.stream.allow_remux then remux_resource ap target else temporary_failure)
    else if is_node_target sv ap target
    then (h, node_resource ap target)
    else (let (h', private) = is_source_private sv now ap.stream source_entry h in
        elim (check_fetch_target sv.resolves_private target private) [
          | some _ ↦ (h', forbidden)
          | none ↦ (h', resource ap source_entry target)
        ])

unfoldable pub route_resource :
    Services → ℕ → AccessPoint → Url → Bytes → Handler → Handler × Response
unfolding route_target blob_of
route_resource sv now ap source_entry remainder h =
    elim (sv.decode_blob (blob_of remainder) ap.id) [
      | none ↦ (h, missing)
      | some raw ↦ elim (sv.parse_url raw) [
        | none ↦ (h, missing)
        | some target ↦ route_target sv now ap source_entry target h
      ]
    ]

-- What is left once the token, where one is needed, is valid.
unfoldable pub route_stream :
    Services → ℕ → AccessPoint → Option TokenInfo → Bytes → Bytes → Handler → Handler × Response
unfolding route_resource source_entry_url
route_stream sv now ap token prefix remainder h =
    if (ap.stream.status == ascii "disabled") || (ap.status == ascii "revoked")
    then (h, replacement ap token (eqb (length remainder) 0))
    else elim (source_entry_url sv ap.stream) [
      | none ↦ (h, internal_error)
      | some source_entry ↦
          if eqb (length remainder) 0
          then (h, entry ap source_entry prefix)
          else route_resource sv now ap source_entry remainder h
    ]

-- The `switch` on the status of a token.
unfoldable pub route_token :
    Services
    → ℕ
    → AccessPoint
    → TokenInfo
    → Bytes
    → Bytes
    → Handler
    → TokenStatus
    → Handler × Response
unfolding route_stream touch_token_throttled
route_token sv now ap info prefix remainder h token_invalid = (h, missing)
route_token sv now ap info prefix remainder h token_revoked =
    (h, replacement ap (some info) (eqb (length remainder) 0))
route_token sv now ap info prefix remainder h token_expired =
    (h, replacement ap (some info) (eqb (length remainder) 0))
route_token sv now ap info prefix remainder h token_valid =
    route_stream sv now ap (some info) prefix remainder (touch_token_throttled now info.id h)

unfoldable pub route_checked :
    Services
    → ℕ
    → AccessPoint
    → Bytes
    → Bytes
    → Handler
    → Result StoreError TokenInfo
    → Handler × Response
unfolding route_token
route_checked sv now ap prefix remainder h (err e) = (h, internal_error)
route_checked sv now ap prefix remainder h (ok info) =
    route_token sv now ap info prefix remainder h info.status

unfoldable pub route_access :
    Services → ℕ → AccessPoint → Bytes → Bytes → Bytes → Handler → Handler × Response
unfolding route_checked validate_token
route_access sv now ap raw prefix remainder h =
    if not (ap.visibility == ascii "private")
    then route_stream sv now ap none prefix remainder h
    else route_checked sv now ap prefix remainder h (validate_token sv now ap.id raw)

unfoldable pub route_found :
    Services
    → ℕ
    → Bytes
    → Bytes
    → Handler
    → Result StoreError (AccessPoint × Bytes)
    → Handler × Response
unfolding route_access
route_found sv now prefix remainder h (err not_found) = (h, missing)
route_found sv now prefix remainder h (err failed) = (h, internal_error)
route_found sv now prefix remainder h (ok (ap, raw)) = route_access sv now ap raw prefix remainder h

-- The path without its first slash, cut at the first `/r/`.
unfoldable pub cut_path : Bytes → Bytes × Bytes
unfolding strip_known_ext
cut_path path = elim (index path (ascii "/r/")) [
  | none ↦ (strip_known_ext path, [])
  | some i ↦ (take i path, drop (suc i) path)
]

unfoldable pub serve_http : Services → ℕ → Request → Handler → Handler × Response
unfolding route_found cut_path resolve_prefix
serve_http sv now r h =
    let path = trim_prefix r.path (ascii "/") in
    let (prefix, remainder) = cut_path path in
    if has_prefix r.path (ascii "/_sv/node/")
    then (h, node_api)
    else if not (r.method == ascii "GET") && not (r.method == ascii "HEAD")
    then (h, not_allowed)
    else if path == ascii "_sv/notice.png"
    then (h, notice)
    else if (path == ascii "_sv") || has_prefix path (ascii "_sv/")
    then (h, slate_page)
    else route_found sv now prefix remainder h (resolve_prefix sv prefix)
