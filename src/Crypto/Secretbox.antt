-- ===== src/Crypto/Secretbox.antt =====
-- gateway/internal/secretbox/secretbox.go: the envelope base64(nonce ‖ sealed). Random bytes are an
-- argument.
use psychic_computing_machin.Common.{
  ℕ, ◌≡◌, not, Option, none, some, [], ◌++◌, arith, ltb, eqb, if◌then◌else◌, Result, ok, err,
  length, take, drop, drop_prefix, take_prefix, length-append, list_eq, nat_eq,
}
use psychic_computing_machin.Common.Text.{Bytes, trim_space}
use psychic_computing_machin.Crypto.Aead.{Aead}

pub data BoxError : Type 0 where
  bad_key_size invalid_base64 too_short not_authentic : BoxError
  unreadable bad_key_file : BoxError

abbrev pub key_size : ℕ
key_size = 32

module _ (a : Aead) where
  -- `LoadKey` on the bytes that the file holds, `none` where it cannot be read.
  unfoldable pub load_key : Option Bytes → Result BoxError Bytes
  load_key none = err unreadable
  load_key (some raw) =
      if eqb (length raw) key_size then ok raw else elim (a.decode (trim_space raw)) [
        | none ↦ err bad_key_file
        | some decoded ↦ if eqb (length decoded) key_size then ok decoded else err bad_key_file
      ]

  -- `nonce` is what `rand.Read` gave.
  unfoldable pub encrypt : Bytes → Bytes → Bytes → Result BoxError Bytes
  encrypt nonce key plain =
      if not (eqb (length key) key_size)
      then err bad_key_size
      else ok (a.encode (nonce ++ a.seal key nonce plain []))

  unfoldable pub decrypt_raw : Bytes → Bytes → Result BoxError Bytes
  decrypt_raw key raw =
      if ltb (length raw) a.nonce_size
      then err too_short
      else elim (a.open_sealed key (take a.nonce_size raw) (drop a.nonce_size raw) []) [
        | none ↦ err not_authentic
        | some plain ↦ ok plain
      ]

  unfoldable pub decrypt : Bytes → Bytes → Result BoxError Bytes
  unfolding decrypt_raw
  decrypt key encoded =
      if not (eqb (length key) key_size)
      then err bad_key_size
      else elim (a.decode encoded) [ none ↦ err invalid_base64 | some raw ↦ decrypt_raw key raw ]

  decrypt_raw-seal :
      (nonce key plain : Bytes)
      → length nonce ≡ a.nonce_size
      → decrypt_raw key (nonce ++ a.seal key nonce plain []) ≡ ok plain
  unfolding decrypt_raw
  decrypt_raw-seal nonce key plain n = ground (
    arith,
    length-append nonce (a.seal key nonce plain []),
    n,
    take_prefix nonce (a.seal key nonce plain []),
    drop_prefix nonce (a.seal key nonce plain []),
    a.open-seal key nonce plain [],
  )

  -- What was encrypted under a key of 32 bytes decrypts under it to the same bytes, for every nonce
  -- of the cipher's size; encryption itself then succeeds.
  pub decrypt-encrypt :
      (nonce key plain : Bytes)
      → length nonce ≡ a.nonce_size
      → length key ≡ key_size
      → (encoded : Bytes) × (encrypt nonce key plain ≡ ok encoded)
        × (decrypt key encoded ≡ ok plain)
  unfolding encrypt decrypt
  decrypt-encrypt nonce key plain n k = (
    a.encode (nonce ++ a.seal key nonce plain []),
    ground arith,
    ground (
      arith,
      a.decode-encode (nonce ++ a.seal key nonce plain []),
      decrypt_raw-seal nonce key plain n,
    ),
  )
