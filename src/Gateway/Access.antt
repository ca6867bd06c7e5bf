-- ===== src/Gateway/Access.antt =====
-- Who may see a stream: `resolvePrefix` and `touchTokenThrottled` of
-- gateway/internal/gatewayhttp/handler.go, `ValidateToken` of gateway/internal/store/store.go.
use psychic_computing_machin.Common.{
  ℕ, suc, ◌-◌, ◌*◌, Bool, true, false, Option, none, some, ◌∷◌, [], ltb, if◌then◌else◌, ◌==◌,
  nat_eq, eqb, list_eq, Result, ok, err, take, drop, length, ◌||◌,
}
use psychic_computing_machin.Common.Text.{Bytes, ascii, last_index_byte, has_suffix, trim_suffix}
use psychic_computing_machin.Common.Map.{lookup, insert}
use psychic_computing_machin.Remux.{second}
use psychic_computing_machin.Gateway.Types.{
  AccessPoint, StoreError, not_found, failed, TokenInfo, TokenRow, token_invalid, token_valid,
  token_revoked, token_expired, Services, Handler,
}

-- `expiresAt` is past; a date that does not parse never is.
unfoldable pub is_expired : Services → ℕ → Option Bytes → Bool
is_expired sv now none = false
is_expired sv now (some text) = elim (sv.parse_time text) [ none ↦ false | some t ↦ ltb t now ]

unfoldable pub token_info : Services → ℕ → Option TokenRow → TokenInfo
unfolding is_expired
token_info sv now none = record {
  id = 0;
  status = token_invalid;
  revoked_at = none;
  expires_at = none;
}
token_info sv now (some row) = elim row.revoked_at [
  | some at ↦ record {
    id = row.id;
    status = token_revoked;
    revoked_at = some at;
    expires_at = row.expires_at;
  }
  | none ↦
      if is_expired sv now row.expires_at
      then record {
        id = row.id;
        status = token_expired;
        revoked_at = none;
        expires_at = row.expires_at;
      }
      else record { id = row.id; status = token_valid; revoked_at = none; expires_at = none }
]

unfoldable pub validate_token : Services → ℕ → ℕ → Bytes → Result StoreError TokenInfo
unfolding token_info
validate_token sv now access_point raw = elim (sv.token_row access_point (sv.token_hash raw)) [
  | err e ↦ err e
  | ok row ↦ ok (token_info sv now row)
]

abbrev pub touch_every : ℕ
touch_every = 60 * second

abbrev pub is_due : ℕ → Option ℕ → Bool
is_due now none = true
is_due now (some last) = ltb touch_every (now - last)

unfoldable pub touch_token_throttled : ℕ → ℕ → Handler → Handler
touch_token_throttled now token h =
    if is_due now (lookup token h.last_touch)
    then record h { last_touch = insert token now h.last_touch; touched = token ∷ h.touched }
    else h

unfoldable pub strip_known_ext : Bytes → Bytes
unfolding trim_suffix
strip_known_ext p =
    if has_suffix p (ascii ".m3u8")
    then trim_suffix p (ascii ".m3u8")
    else if has_suffix p (ascii ".ts")
    then trim_suffix p (ascii ".ts")
    else p

unfoldable pub private_point :
    Bytes → Result StoreError AccessPoint → Result StoreError (AccessPoint × Bytes)
private_point token (err e) = err e
private_point token (ok ap) =
    if ap.visibility == ascii "private" then ok (ap, token) else err not_found

-- A private access point and the token that follows it.
unfoldable pub resolve_private : Services → Bytes → Result StoreError (AccessPoint × Bytes)
unfolding private_point
resolve_private sv prefix = elim (last_index_byte prefix b'/') [
  | none ↦ err not_found
  | some i ↦
      if eqb i 0 || eqb i (length prefix - 1)
      then err not_found
      else private_point (drop (suc i) prefix) (sv.access_point (take i prefix))
]

unfoldable pub public_point :
    Services → Bytes → Result StoreError AccessPoint → Result StoreError (AccessPoint × Bytes)
unfolding resolve_private
public_point sv prefix (err not_found) = resolve_private sv prefix
public_point sv prefix (err failed) = err failed
public_point sv prefix (ok ap) =
    if ap.visibility == ascii "public" then ok (ap, []) else resolve_private sv prefix

unfoldable pub resolve_prefix : Services → Bytes → Result StoreError (AccessPoint × Bytes)
unfolding public_point
resolve_prefix sv prefix = public_point sv prefix (sv.access_point prefix)
