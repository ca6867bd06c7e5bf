-- ===== src/Gateway/Entry.antt =====
-- What a viewer gets of a source's answer: `serveEntry` and `sniffAndServe` of
-- gateway/internal/gatewayhttp/handler.go, `looksLikeDocument` of sourceurl.go.
use psychic_computing_machin.Common.{
  ℕ, ◌+◌, ◌-◌, ◌*◌, Bool, true, false, ◌&&◌, ◌||◌, not, List, [], ◌∷◌, ◌++◌, map, length, take,
  drop, ltb, leb, eqb, if◌then◌else◌, ◌==◌, nat_eq, list_eq, Result, ok, err,
}
use psychic_computing_machin.Common.Text.{Bytes, ascii, has_prefix, has_suffix, split, trim_space}
use psychic_computing_machin.Remux.{looks_like_mpegts}
use psychic_computing_machin.Hls.{is_playlist}
use psychic_computing_machin.Gateway.Types.{AccessPoint}
use psychic_computing_machin.Gateway.Target.{uses_credential_placeholders}

-- strings.ToLower on ASCII text.
abbrev pub lower : ℕ → ℕ
lower c = if leb b'A' c && leb c b'Z' then c + 32 else c

abbrev pub to_lower : Bytes → Bytes
to_lower s = map lower s

abbrev pub is_control : ℕ → Bool
is_control b = ltb b 32 && (not (eqb b 9) && (not (eqb b 10) && not (eqb b 13)))

unfoldable pub any_control : Bytes → Bool
any_control [] = false
any_control (b ∷ s) = is_control b || any_control s

abbrev pub media_type : List Bytes → Bytes
media_type [] = []
media_type (t ∷ ts) = to_lower (trim_space t)

-- The first argument is utf8.Valid.
unfoldable pub looks_like_document : (Bytes → Bool) → Bytes → Bytes → Bool
unfolding any_control
looks_like_document valid_utf8 content_type head =
    let ct = media_type (split b';' content_type) in
    let text = to_lower (trim_space head) in
    if eqb (length head) 0 || (not (valid_utf8 head) || any_control head)
    then false
    else if (ct == ascii "text/vtt") || has_prefix (trim_space head) (ascii "WEBVTT")
    then false
    else if has_prefix ct (ascii "text/")
        || (has_suffix ct (ascii "json") || has_suffix ct (ascii "xml"))
    then true
    else has_prefix text (ascii "<!doctype") || has_prefix text (ascii "<html")

abbrev pub sniff_limit : ℕ
sniff_limit = 1024

abbrev pub max_playlist_size : ℕ
max_playlist_size = 4 * 1024 * 1024

-- The body that the source would send, and whether reading its head or the rest fails.
pub record Body : Type 0 where
  pub content_type : Bytes
  pub bytes : Bytes
  pub head_fails : Bool
  pub rest_fails : Bool

pub data Fetched : Type 0 where
  timed_out unreachable : Fetched
  answered : ℕ → Body → Fetched

pub data Served : Type 0 where
  unavailable bad_gateway invalid_playlist running_remux : Served
  new_remux : Bytes → Served
  playlist passed_on : Bytes → Served

abbrev pub write_playlist {ℓ} : {E : Type ℓ} → Result E Bytes → Served
write_playlist (ok text) = playlist text
write_playlist (err e) = invalid_playlist

-- The head and a bounded read of the rest, one byte more than a playlist may have.
unfoldable pub read_bounded : Bytes → Bytes
read_bounded bytes =
    let head = take sniff_limit bytes in
    head ++ take (max_playlist_size - length head + 1) (drop sniff_limit bytes)

unfoldable pub serve_playlist {ℓ} : {E : Type ℓ} → (Bytes → Result E Bytes) → Body → Served
unfolding read_bounded
serve_playlist rewrite body =
    let full = read_bounded body.bytes in
    if body.rest_fails
    then bad_gateway
    else if ltb max_playlist_size (length full)
    then bad_gateway
    else write_playlist (rewrite full)

unfoldable pub sniff_and_serve {ℓ} :
    {E : Type ℓ} → (Bytes → Bool) → (Bytes → Result E Bytes) → AccessPoint → Bool → Body → Served
unfolding serve_playlist looks_like_document
sniff_and_serve valid_utf8 rewrite ap entry body =
    let head = take sniff_limit body.bytes in
    if body.head_fails
    then bad_gateway
    else if entry && looks_like_mpegts head
    then if ap.stream.allow_remux then new_remux body.bytes else unavailable
    else if is_playlist head
    then serve_playlist rewrite body
    else if uses_credential_placeholders ap.stream.source_url
        && (entry || looks_like_document valid_utf8 body.content_type head)
    then unavailable
    else passed_on body.bytes

unfoldable pub answer_entry {ℓ} :
    {E : Type ℓ} → (Bytes → Bool) → (Bytes → Result E Bytes) → AccessPoint → Fetched → Served
unfolding sniff_and_serve
answer_entry valid_utf8 rewrite ap timed_out = unavailable
answer_entry valid_utf8 rewrite ap unreachable = unavailable
answer_entry valid_utf8 rewrite ap (answered status body) =
    if leb 400 status then unavailable else sniff_and_serve valid_utf8 rewrite ap true body

-- One retry, after a timeout only.
abbrev pub settled : Fetched → Fetched → Fetched
settled timed_out second = second
settled unreachable second = unreachable
settled (answered status body) second = answered status body

-- The manager is asked twice for a running session of the stream with this signature, the first
-- time only if the owner may not remux: `barred` and `existing` are its answers, which differ when a
-- session begins or ends in between.
unfoldable pub serve_entry {ℓ} :
    {E : Type ℓ}
    → (Bytes → Bool)
    → (Bytes → Result E Bytes)
    → AccessPoint
    → Bool
    → Bool
    → Fetched
    → Fetched
    → Served
unfolding answer_entry
serve_entry valid_utf8 rewrite ap barred existing first second =
    if not ap.stream.allow_remux && barred
    then unavailable
    else if existing
    then running_remux
    else answer_entry valid_utf8 rewrite ap (settled first second)
