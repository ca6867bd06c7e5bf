-- ===== src/Leakcheck/Matcher.antt =====
-- gateway/internal/leakcheck/matcher.go: what a public text says about a leaked access point. The
-- hash of a token, SHA-256 in hexadecimal, is a parameter.
use psychic_computing_machin.Common.{
  ℕ, Bool, true, ◌&&◌, ◌||◌, not, Option, none, some, List, [], ◌∷◌, ◌++◌, length, take, drop, leb,
  eqb, if◌then◌else◌, ◌==◌, nat_eq, list_eq,
}
use psychic_computing_machin.Common.Text.{Bytes, ascii, has_prefix, contains_text, trim_right}
use psychic_computing_machin.Gateway.{to_lower}

pub record KnownToken : Type 0 where
  pub id : ℕ
  pub hash : Bytes

pub record AccessPointInfo : Type 0 where
  pub id : ℕ
  pub stream_id : ℕ
  pub public_path : Bytes
  pub visibility : Bytes
  pub tokens : List KnownToken

pub data Confidence : Type 0 where
  mention probable confirmed : Confidence

pub record Match : Type 0 where
  pub confidence : Confidence
  pub access_point_id : ℕ
  pub stream_id : ℕ
  pub token_id : Option ℕ
  pub matched_value : Bytes

unfoldable pub anchor : Bytes → AccessPointInfo → Bytes
anchor base_url info = trim_right b'/' base_url ++ (b'/' ∷ info.public_path)

abbrev pub is_hex_digit : ℕ → Bool
is_hex_digit c =
    (leb b'0' c && leb c b'9') || ((leb b'a' c && leb c b'f') || (leb b'A' c && leb c b'F'))

abbrev pub all_hex_digits : Bytes → Bool
all_hex_digits [] = true
all_hex_digits (c ∷ s) = is_hex_digit c && all_hex_digits s

-- `[0-9a-fA-F]{48}` at the start.
unfoldable pub token_shaped : Bytes → Bool
token_shaped s = eqb (length (take 48 s)) 48 && all_hex_digits (take 48 s)

-- The leftmost match of the anchor, a slash and a token.
unfoldable pub find_after : Bytes → Bytes → Option Bytes
unfolding token_shaped
find_after opening [] = none
find_after opening (c ∷ s) =
    let rest = drop (length opening) (c ∷ s) in
    let later = find_after opening s in
    if has_prefix (c ∷ s) opening && token_shaped rest then some (take 48 rest) else later

unfoldable pub candidate_token_after : Bytes → Bytes → Option Bytes
unfolding find_after
candidate_token_after anchor text = elim (find_after (anchor ++ ascii "/") text) [
  | none ↦ none
  | some token ↦ some (to_lower token)
]

unfoldable pub find_known : Bytes → List KnownToken → Option KnownToken
find_known hash [] = none
find_known hash (t ∷ ts) =
    let later = find_known hash ts in if t.hash == hash then some t else later

unfoldable pub redacted : Bytes → Bytes → Bytes
redacted anchor hash = anchor ++ (ascii "/<redacted token, hash " ++ (take 12 hash ++ ascii ">"))

abbrev pub match_of : AccessPointInfo → Confidence → Option ℕ → Bytes → Match
match_of info confidence token value = record {
  confidence = confidence;
  access_point_id = info.id;
  stream_id = info.stream_id;
  token_id = token;
  matched_value = value;
}

-- A private access point of which the text holds the anchor.
unfoldable pub classify_private : (Bytes → Bytes) → AccessPointInfo → Bytes → Option Bytes → Match
unfolding find_known redacted
classify_private hash info anchor none = match_of info mention none anchor
classify_private hash info anchor (some candidate) =
    elim (find_known (hash candidate) info.tokens) [
      | none ↦ match_of info probable none (redacted anchor (hash candidate))
      | some t ↦ match_of info confirmed (some t.id) (redacted anchor (hash candidate))
    ]

unfoldable pub classify : (Bytes → Bytes) → AccessPointInfo → Bytes → Bytes → Option Match
unfolding classify_private candidate_token_after anchor
classify hash info base_url text =
    let a = anchor base_url info in
    if not (contains_text text a)
    then none
    else if not (info.visibility == ascii "private")
    then some (match_of info confirmed none a)
    else some (classify_private hash info a (candidate_token_after a text))

-- What is hashed to tell a finding from another.
unfoldable pub dedupe_key : (Bytes → Bytes) → Bytes → Bytes → Bytes → Bytes
dedupe_key hash source source_url matched_value =
    hash (source ++ (b'|' ∷ source_url ++ (b'|' ∷ matched_value)))
