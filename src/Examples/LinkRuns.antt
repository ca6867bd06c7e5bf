-- ===== src/Examples/LinkRuns.antt =====
-- A playlist of a source, with the links of gateway/internal/gatewayhttp/handler.go.
use psychic_computing_machin.Common.{
  ℕ, zero, suc, ◌≡◌, refl, ap, Option, none, some, List, [], ◌∷◌, ◌++◌, eqb, nat_eq, if◌then◌else◌,
  length, Result, ok, err,
}
use psychic_computing_machin.Common.Text.{Bytes, ascii}
use psychic_computing_machin.Common.Decimal.{pos}
use psychic_computing_machin.Crypto.Aead.{Aead}
use psychic_computing_machin.Hls.{rewrite_lines}
use psychic_computing_machin.Gateway.{RefTarget, encode_ref}
use psychic_computing_machin.Examples.CryptoRuns.{plain_open, plain_open-seal, plain_authentic}

-- A code of letters: each byte as that many of the one and one of the other.
abbrev spell : ℕ → Bytes → Bytes
spell zero rest = b'b' ∷ rest
spell (suc n) rest = b'a' ∷ spell n rest

abbrev letters : Bytes → Bytes
letters [] = []
letters (b ∷ s) = spell b (letters s)

abbrev begin_byte : Option Bytes → Option Bytes
begin_byte none = none
begin_byte (some s) = some (0 ∷ s)

abbrev count_up : Option Bytes → Option Bytes
count_up none = none
count_up (some []) = none
count_up (some (b ∷ s)) = some (suc b ∷ s)

abbrev read_letters : Bytes → Option Bytes
read_letters [] = some []
read_letters (c ∷ s) =
    let rest = read_letters s in if eqb c b'b' then begin_byte rest else count_up rest

read_letters-spell :
    (n : ℕ) (rest s : Bytes)
    → read_letters rest ≡ some s
    → read_letters (spell n rest) ≡ some (n ∷ s)
read_letters-spell zero rest s h = ap (λ o. begin_byte o) h
read_letters-spell (suc n) rest s h = ap (λ o. count_up o) (read_letters-spell n rest s h)

read_letters-letters : (s : Bytes) → read_letters (letters s) ≡ some s
read_letters-letters [] = refl
read_letters-letters (b ∷ s) = read_letters-spell b (letters s) s (read_letters-letters s)

abbrev letter_aead : Aead
letter_aead = record {
  nonce_size = 2;
  seal = λ key nonce plain ad. length ad ∷ (ad ++ plain);
  open_sealed = plain_open;
  open-seal = plain_open-seal;
  authentic = plain_authentic;
  encode = letters;
  decode = read_letters;
  decode-encode = read_letters-letters;
}

abbrev at_source : Bytes → Result Bytes RefTarget
at_source u = ok (record { text = 1 ∷ u; path = b'/' ∷ u })

abbrev drawn : Bytes → Result Bytes Bytes
drawn text = ok (2 ∷ 3 ∷ [])

abbrev viewer_prefix : Bytes
viewer_prefix = ascii "tv/k"

abbrev playlist_lines : List Bytes
playlist_lines = ascii "#EXT-X-KEY:URI=\"k\",IV=1\r" ∷ ascii "a.ts" ∷ []

abbrev lines_of : Result Bytes (List Bytes) → List Bytes
lines_of (ok ls) = ls
lines_of (err e) = []

abbrev written : List Bytes
written =
    lines_of (
      rewrite_lines at_source (encode_ref letter_aead [] drawn viewer_prefix (pos 5))
        playlist_lines)
