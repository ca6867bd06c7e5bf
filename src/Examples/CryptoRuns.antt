-- ===== src/Examples/CryptoRuns.antt =====
-- A transparent cipher that keeps the promises, and tokens and signatures over it.
use psychic_computing_machin.Common.{
  ℕ, zero, suc, ◌%◌, ◌⊎◌, ◌≡◌, ◌↔◌, refl, true, ◌&&◌, Option, none, some, [], ◌∷◌, ◌++◌, nat_eq,
  list_eq, same_list, same_list_iff, eqb, if◌then◌else◌, ok, arith, length, take, drop, take_prefix,
  drop_prefix, take-append-drop,
}
use psychic_computing_machin.Common.Text.{Bytes, ascii}
use psychic_computing_machin.Common.Decimal.{pos}
use psychic_computing_machin.Crypto.Aead.{Aead}
use psychic_computing_machin.Crypto.Secretbox
use psychic_computing_machin.Crypto.Blobcodec
use psychic_computing_machin.Nodeproto.{Hashing, derive, sign_message, sign, verify, parse_token}
use psychic_computing_machin.Nodeproto.TokenLaws.{IsNodeToken, parse_token_iff}
use psychic_computing_machin.Nodeproto.SignatureLaws.{verify_bound, IsBytes, Collides}

-- The sealed text is the length of the associated data, that data, and the plaintext.
pub plain_open : Bytes → Bytes → Bytes → Bytes → Option Bytes
plain_open key nonce [] ad = none
plain_open key nonce (n ∷ rest) ad =
    if eqb n (length ad) && same_list (take (length ad) rest) ad
    then some (drop (length ad) rest)
    else none

pub plain_open-seal :
    (key nonce plain ad : Bytes) → plain_open key nonce (length ad ∷ (ad ++ plain)) ad ≡ some plain
unfolding plain_open
plain_open-seal key nonce plain ad = ground (
  arith,
  take_prefix ad plain,
  drop_prefix ad plain,
  same_list_iff (take (length ad) (ad ++ plain)) ad,
)

pub plain_authentic :
    (key nonce sealed ad plain : Bytes)
    → plain_open key nonce sealed ad ≡ some plain
    → sealed ≡ length ad ∷ (ad ++ plain)
unfolding plain_open
plain_authentic key nonce [] ad plain h = cc
plain_authentic key nonce (n ∷ rest) ad plain h =
    ground (arith, same_list_iff (take (length ad) rest) ad, take-append-drop (length ad) rest)

abbrev plain_aead : Aead
plain_aead = record {
  nonce_size = 2;
  seal = λ key nonce plain ad. length ad ∷ (ad ++ plain);
  open_sealed = plain_open;
  open-seal = plain_open-seal;
  authentic = plain_authentic;
  encode = λ b. b;
  decode = λ b. some b;
  decode-encode = λ b. refl;
}

abbrev key : Bytes
key = ascii "0123456789abcdef0123456789abcdef"

decrypt-encrypt_example :
    (encoded : Bytes) × (Secretbox.encrypt plain_aead (ascii "no") key (ascii "pw") ≡ ok encoded)
    × (Secretbox.decrypt plain_aead key encoded ≡ ok (ascii "pw"))
decrypt-encrypt_example =
    Secretbox.decrypt-encrypt plain_aead (ascii "no") key (ascii "pw") refl refl

decode-encode_example :
    Blobcodec.decode plain_aead key
      (Blobcodec.encode plain_aead key (ascii "no") (ascii "http://s/1.ts") (ascii "42"))
      (ascii "42")
    ≡ ok (ascii "http://s/1.ts")
decode-encode_example =
    Blobcodec.decode-encode plain_aead key (ascii "no") (ascii "http://s/1.ts") (ascii "42") refl

decode_authentic_example :
    (n : Bytes) × (plain_aead.decode (1 ∷ 2 ∷ 1 ∷ 9 ∷ 5 ∷ [])
      ≡ some (n ++ plain_aead.seal key n (5 ∷ []) (9 ∷ [])))
unfolding plain_open Blobcodec.decode
decode_authentic_example =
    Blobcodec.decode_authentic plain_aead key (1 ∷ 2 ∷ 1 ∷ 9 ∷ 5 ∷ []) (9 ∷ []) (5 ∷ []) refl

-- A code of at most 32 bytes, like that of HMAC-SHA256: the first ones of the message.
abbrev low_bytes : ℕ → Bytes → Bytes
low_bytes zero s = []
low_bytes (suc n) [] = []
low_bytes (suc n) (b ∷ s) = b % 256 ∷ low_bytes n s

low_bytes-IsBytes : (n : ℕ) (s : Bytes) → IsBytes (low_bytes n s)
low_bytes-IsBytes zero s = tt
low_bytes-IsBytes (suc n) [] = tt
low_bytes-IsBytes (suc n) (b ∷ s) = (omega arith, low_bytes-IsBytes n s)

abbrev short_code : Hashing
short_code = record { sha256 = low_bytes 32; hmac = λ key message. low_bytes 32 message }

verify_bound_example :
    (verify short_code
        (ascii "s")
        (pos 7)
        (pos 3)
        (pos 9)
        (pos 20)
        (sign short_code (ascii "s") (pos 7) (pos 3) (pos 9) (pos 21))
      ≡ true)
    ↔ (((pos 7 ≡ pos 7) × (pos 3 ≡ pos 3) × (pos 9 ≡ pos 9) × (pos 20 ≡ pos 21))
        ⊎ Collides short_code
            (derive short_code (ascii "sign") (ascii "s"))
            (sign_message (pos 7) (pos 3) (pos 9) (pos 20))
            (sign_message (pos 7) (pos 3) (pos 9) (pos 21)))
verify_bound_example =
    verify_bound short_code (ascii "s") (pos 7) (pos 3) (pos 9) (pos 20) (pos 7) (pos 3) (pos 9)
      (pos 21) (λ key message. low_bytes-IsBytes 32 message)

abbrev token_text : Bytes
token_text = ascii "svn_42_0123456789abcdef0123456789abcdef0123456789abcdef0123456789abcdef"

parse_token_iff_example :
    (parse_token token_text ≡ some (42, drop 7 token_text))
    ↔ IsNodeToken token_text 42 (drop 7 token_text)
parse_token_iff_example = parse_token_iff token_text 42 (drop 7 token_text)

token_accepted : parse_token token_text ≡ some (42, drop 7 token_text)
unfolding parse_token
token_accepted = refl
