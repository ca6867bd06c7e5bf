-- ===== src/Nodeproto/Token.antt =====
-- `ParseToken` of gateway/internal/nodeproto/nodeproto.go.
use psychic_computing_machin.Common.{
  ℕ, Bool, true, false, ◌&&◌, ◌||◌, Option, none, some, [], ◌∷◌, leb, eqb, if◌then◌else◌, length,
  drop,
}
use psychic_computing_machin.Common.Text.{Bytes, ascii, has_prefix}
use psychic_computing_machin.Common.Decimal.{is_digit, read_digits}

unfoldable pub is_hex : ℕ → Bool
unfolding is_digit
is_hex c = is_digit c || (leb b'a' c && leb c b'f')

unfoldable pub all_hex : Bytes → Bool
unfolding is_hex
all_hex [] = true
all_hex (c ∷ s) = is_hex c && all_hex s

-- The digits in front, and what follows.
unfoldable pub span_digits : Bytes → Bytes × Bytes
span_digits [] = ([], [])
span_digits (c ∷ s) =
    let (ds, rest) = span_digits s in if is_digit c then (c ∷ ds, rest) else ([], c ∷ s)

-- `[1-9][0-9]{0,17}`
unfoldable pub is_node_id : Bytes → Bool
is_node_id [] = false
is_node_id (c ∷ ds) = (leb b'1' c && leb c b'9') && leb (length ds) 17

-- `_([0-9a-f]{64})$`
unfoldable pub secret_after : Bytes → Option Bytes
unfolding all_hex
secret_after [] = none
secret_after (c ∷ s) = if eqb c b'_' && (eqb (length s) 64 && all_hex s) then some s else none

-- The groups of the expression; `ParseInt` of at most 18 digits is their value.
unfoldable pub token_groups : Bytes × Bytes → Option (ℕ × Bytes)
unfolding is_node_id secret_after read_digits
token_groups (ds, rest) =
    if is_node_id ds
    then elim (secret_after rest) [
      | none ↦ none
      | some secret ↦ elim (read_digits 0 ds) [ none ↦ none | some id ↦ some (id, secret) ]
    ]
    else none

unfoldable pub parse_token : Bytes → Option (ℕ × Bytes)
unfolding span_digits token_groups
parse_token token =
    if has_prefix token (ascii "svn_") then token_groups (span_digits (drop 4 token)) else none
