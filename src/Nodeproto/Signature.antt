-- ===== src/Nodeproto/Signature.antt =====
-- Keys and viewer signatures of gateway/internal/nodeproto/nodeproto.go.
use psychic_computing_machin.Common.{
  ℕ, ◌+◌, ◌-◌, ◌/◌, ◌%◌, Bool, [], ◌∷◌, ◌++◌, ltb, if◌then◌else◌, ◌==◌, list_eq, nat_eq, take,
}
use psychic_computing_machin.Common.Text.{Bytes, ascii}
use psychic_computing_machin.Common.Decimal.{ℤ, format_int}

-- One digit of encoding/hex.
unfoldable pub hex_digit : ℕ → ℕ
hex_digit n = if ltb n 10 then b'0' + n else b'a' + n - 10

-- hex.EncodeToString
unfoldable pub hex_encode : Bytes → Bytes
unfolding hex_digit
hex_encode [] = []
hex_encode (b ∷ s) = hex_digit (b / 16) ∷ hex_digit (b % 16) ∷ hex_encode s

unfoldable pub sign_message : ℤ → ℤ → ℤ → ℤ → Bytes
sign_message stream_id access_point_id token_id exp =
    ascii "v1|"
    ++ (format_int stream_id
        ++ (b'|'
            ∷ (format_int access_point_id
                ++ (b'|' ∷ (format_int token_id ++ (b'|' ∷ format_int exp))))))

pub record Hashing : Type 0 where
  pub sha256 : Bytes → Bytes
  -- Key, then message.
  pub hmac : Bytes → Bytes → Bytes

module _ (h : Hashing) where
  unfoldable pub secret_hash : Bytes → Bytes
  secret_hash secret = hex_encode (h.sha256 secret)

  unfoldable pub hash_matches : Bytes → Bytes → Bool
  unfolding secret_hash
  hash_matches secret stored = secret_hash secret == stored

  unfoldable pub derive : Bytes → Bytes → Bytes
  derive purpose secret = h.sha256 (ascii "streamvault-node/" ++ (purpose ++ (0 ∷ secret)))

  unfoldable pub config_key : Bytes → Bytes
  unfolding derive
  config_key secret = derive (ascii "config") secret

  unfoldable pub sign : Bytes → ℤ → ℤ → ℤ → ℤ → Bytes
  unfolding derive
  sign secret stream_id access_point_id token_id exp =
      hex_encode (
        h.hmac (derive (ascii "sign") secret) (sign_message stream_id access_point_id token_id exp))

  unfoldable pub verify : Bytes → ℤ → ℤ → ℤ → ℤ → Bytes → Bool
  unfolding sign
  verify secret stream_id access_point_id token_id exp sig =
      sign secret stream_id access_point_id token_id exp == sig

  unfoldable pub viewer_id : Bytes → Bytes
  viewer_id ip = hex_encode (take 8 (h.sha256 (ascii "streamvault-viewer" ++ (0 ∷ ip))))
