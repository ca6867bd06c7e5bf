-- ===== src/Crypto/Aead.antt =====
-- What the gateway uses of crypto/cipher and encoding/base64, with what their documents promise.
use psychic_computing_machin.Common.{ℕ, ◌≡◌, Option, some}
use psychic_computing_machin.Common.Text.{Bytes}

pub record Aead : Type 0 where
  pub nonce_size : ℕ
  -- Key, nonce, plaintext, associated data; the result carries the tag.
  pub seal : Bytes → Bytes → Bytes → Bytes → Bytes
  -- Key, nonce, sealed text, associated data.
  pub open_sealed : Bytes → Bytes → Bytes → Bytes → Option Bytes
  pub open-seal :
      (key nonce plain ad : Bytes) → open_sealed key nonce (seal key nonce plain ad) ad ≡ some plain
  -- Authenticity: what opens was sealed under the same key, nonce and associated data.
  pub authentic :
      (key nonce sealed ad plain : Bytes)
      → open_sealed key nonce sealed ad ≡ some plain
      → sealed ≡ seal key nonce plain ad
  pub encode : Bytes → Bytes
  pub decode : Bytes → Option Bytes
  pub decode-encode : (b : Bytes) → decode (encode b) ≡ some b
