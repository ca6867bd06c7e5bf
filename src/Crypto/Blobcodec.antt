-- ===== src/Crypto/Blobcodec.antt =====
-- gateway/internal/blobcodec/blobcodec.go: resource links sealed under the process's key and bound
-- to an access point. The key and the random nonces are arguments.
use psychic_computing_machin.Common.{
  ◌≡◌, refl, ap, ◌∙◌, Option, none, some, ◌++◌, arith, ltb, if◌then◌else◌, Result, ok, err, length,
  take, drop, drop_prefix, take_prefix, take-append-drop, length-append,
}
use psychic_computing_machin.Common.Text.{Bytes}
use psychic_computing_machin.Crypto.Aead.{Aead}

pub data BlobError : Type 0 where
  bad_encoding too_short not_authentic : BlobError

module _ (a : Aead) (key : Bytes) where
  unfoldable pub encode : Bytes → Bytes → Bytes → Bytes
  encode nonce plain access_point = a.encode (nonce ++ a.seal key nonce plain access_point)

  unfoldable pub decode_raw : Bytes → Bytes → Result BlobError Bytes
  decode_raw raw access_point =
      if ltb (length raw) a.nonce_size
      then err too_short
      else elim (a.open_sealed key (take a.nonce_size raw) (drop a.nonce_size raw) access_point) [
        | none ↦ err not_authentic
        | some plain ↦ ok plain
      ]

  unfoldable pub decode : Bytes → Bytes → Result BlobError Bytes
  unfolding decode_raw
  decode blob access_point = elim (a.decode blob) [
    | none ↦ err bad_encoding
    | some raw ↦ decode_raw raw access_point
  ]

  decode_raw-seal :
      (nonce plain access_point : Bytes)
      → length nonce ≡ a.nonce_size
      → decode_raw (nonce ++ a.seal key nonce plain access_point) access_point ≡ ok plain
  unfolding decode_raw
  decode_raw-seal nonce plain access_point n = ground (
    arith,
    length-append nonce (a.seal key nonce plain access_point),
    n,
    take_prefix nonce (a.seal key nonce plain access_point),
    drop_prefix nonce (a.seal key nonce plain access_point),
    a.open-seal key nonce plain access_point,
  )

  decode_raw_sound :
      (raw access_point plain : Bytes)
      → decode_raw raw access_point ≡ ok plain
      → raw ≡ take a.nonce_size raw ++ a.seal key (take a.nonce_size raw) plain access_point
  unfolding decode_raw
  decode_raw_sound raw access_point plain h = ground (
    arith,
    h,
    take-append-drop a.nonce_size raw,
    a.authentic key (take a.nonce_size raw) (drop a.nonce_size raw) access_point plain,
  )

  -- A link decodes, for the access point that it was made for, to the address that was sealed.
  pub decode-encode :
      (nonce plain access_point : Bytes)
      → length nonce ≡ a.nonce_size
      → decode (encode nonce plain access_point) access_point ≡ ok plain
  unfolding decode encode
  decode-encode nonce plain access_point n = ground (
    arith,
    a.decode-encode (nonce ++ a.seal key nonce plain access_point),
    decode_raw-seal nonce plain access_point n,
  )

  -- Whatever decodes to an address for an access point is, under its base64, a nonce and what the
  -- process's key seals of that address for that very access point: nothing else is accepted.
  pub decode_authentic :
      (blob access_point target : Bytes)
      → decode blob access_point ≡ ok target
      → (n : Bytes) × (a.decode blob ≡ some (n ++ a.seal key n target access_point))
  unfolding decode
  decode_authentic blob access_point target e = opened (a.decode blob) refl e
    where
      opened :
          (o : Option Bytes)
          → a.decode blob ≡ o
          → elim o [ none ↦ err bad_encoding | some raw ↦ decode_raw raw access_point ] ≡ ok target
          → (n : Bytes) × (a.decode blob ≡ some (n ++ a.seal key n target access_point))
      opened none d e = cc
      opened (some raw) d e =
          (take a.nonce_size raw, d ∙ ap some (decode_raw_sound raw access_point target e))
