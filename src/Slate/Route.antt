-- ===== src/Slate/Route.antt =====
-- The names that gateway/internal/slate/slate.go and slate/text.go accept, and `serveSlate` of
-- gateway/internal/gatewayhttp/handler.go up to the provider.
use psychic_computing_machin.Common.{
  suc, ◌-◌, Bool, true, false, ◌&&◌, ◌||◌, not, Option, none, some, List, [], ◌∷◌, ◌++◌, length,
  take, drop, leb, eqb, contains, if◌then◌else◌, ◌==◌, nat_eq, list_eq,
}
use psychic_computing_machin.Common.Text.{
  Bytes, ascii, has_prefix, has_suffix, index, split, trim_prefix,
}

abbrev pub temporary_reason : Bytes
temporary_reason = ascii "temporarily_unavailable"

abbrev pub default_reason : Bytes
default_reason = ascii "unauthorized_redistribution"

abbrev pub reasons : List Bytes
reasons =
    ascii "limited_bandwidth"
    ∷ ascii "not_intended_for_public"
    ∷ default_reason
    ∷ ascii "access_revoked_by_owner"
    ∷ ascii "stream_permanently_discontinued"
    ∷ temporary_reason
    ∷ []

unfoldable pub valid_reason : Bytes → Bool
valid_reason r = contains r reasons

abbrev pub all_digits : Bytes → Bool
all_digits [] = true
all_digits (c ∷ s) = (leb b'0' c && leb c b'9') && all_digits s

abbrev pub all_lower_hex : Bytes → Bool
all_lower_hex [] = true
all_lower_hex (c ∷ s) =
    ((leb b'0' c && leb c b'9') || (leb b'a' c && leb c b'f')) && all_lower_hex s

-- `^seg[0-9]{6,9}\.ts$`: what stands between `seg` and `.ts`.
unfoldable pub segment_digits : Bytes → Bytes
segment_digits name = take (length name - 6) (drop 3 name)

unfoldable pub valid_segment : Bytes → Bool
unfolding segment_digits
valid_segment name =
    has_prefix name (ascii "seg")
    && (has_suffix name (ascii ".ts")
        && ((leb 12 (length name) && leb (length name) 15) && all_digits (segment_digits name)))

unfoldable pub valid_slate_name : Bytes → Bool
unfolding valid_segment
valid_slate_name name = (name == ascii "index.m3u8") || valid_segment name

unfoldable pub valid_key : Bytes → Bool
valid_key key = eqb (length key) 40 && all_lower_hex key

abbrev pub unavailable : Bytes
unavailable = ascii "unavailable"

abbrev pub temporary : Bytes
temporary = ascii "temporarily-unavailable"

-- strings.SplitN(v, ":", 2)
unfoldable pub cut_colon : Bytes → Bytes × Option Bytes
cut_colon v = elim (index v (ascii ":")) [
  | none ↦ (v, none)
  | some i ↦ (take i v, some (drop (suc i) v))
]

abbrev pub reason_or : Bytes → Option Bytes → Bytes
reason_or default none = default
reason_or default (some reason) = reason

unfoldable pub split_variant : Bytes → Option (Bytes × Bytes)
unfolding cut_colon valid_reason
split_variant v =
    let (base, given) = cut_colon v in
    let reason = reason_or (if base == temporary then temporary_reason else default_reason) given in
    if not (base == unavailable) && not (base == temporary)
    then none
    else if not (valid_reason reason)
        || (((base == temporary) && not (reason == temporary_reason))
            || ((base == unavailable) && (reason == temporary_reason)))
    then none
    else some (base, reason)

unfoldable pub valid_variant : Bytes → Bool
unfolding split_variant
valid_variant v = elim (split_variant v) [ none ↦ false | some _ ↦ true ]

unfoldable pub slate_route_parts : Bytes → Bytes × Bytes
unfolding cut_colon
slate_route_parts v =
    let (base, given) = cut_colon v in
    (base, reason_or (if v == temporary then temporary_reason else default_reason) given)

-- The variant, the key and the name that the provider is asked for.
pub data SlatePage : Type 0 where
  no_page : SlatePage
  page : Bytes → Bytes → Bytes → SlatePage

unfoldable pub check_page : Bytes → Bytes → Bytes → SlatePage
unfolding valid_variant valid_slate_name valid_key
check_page variant key name =
    if not (valid_variant variant)
    then no_page
    else if not (valid_slate_name name) || (not (eqb (length key) 0) && not (valid_key key))
    then no_page
    else page variant key name

-- The path in its four, five or six parts.
unfoldable pub slate_parts : List Bytes → SlatePage
unfolding check_page slate_route_parts valid_reason
slate_parts (sv ∷ slate ∷ base ∷ name ∷ []) =
    if (sv == ascii "_sv") && ((slate == ascii "slate") && valid_variant base)
    then check_page (base ++ (b':' ∷ (slate_route_parts base).1)) [] name
    else no_page
slate_parts (sv ∷ slate ∷ base ∷ part ∷ name ∷ []) =
    if (sv == ascii "_sv") && ((slate == ascii "slate") && valid_variant base)
    then if valid_reason part
      then check_page (base ++ (b':' ∷ part)) [] name
      else check_page (base ++ (b':' ∷ (slate_route_parts base).1)) part name
    else no_page
slate_parts (sv ∷ slate ∷ base ∷ reason ∷ key ∷ name ∷ []) =
    if (sv == ascii "_sv") && ((slate == ascii "slate") && valid_variant base)
    then check_page (base ++ (b':' ∷ reason)) key name
    else no_page
slate_parts _ = no_page

unfoldable pub serve_slate : Bytes → SlatePage
unfolding slate_parts
serve_slate path = slate_parts (split b'/' (trim_prefix path (ascii "/")))
