-- ===== src/Gateway/Proxied.antt =====
-- What the playlists refer to that gateway/internal/gatewayhttp/handler.go passes on, with the links
-- of `encodeRef`.
use psychic_computing_machin.Common.{◌≡◌, Bool, true, ◌&&◌, not, contains, nat_eq, Result, ok}
use psychic_computing_machin.Common.Text.{Bytes}
use psychic_computing_machin.Common.Decimal.{ℤ}
use psychic_computing_machin.Crypto.Aead.{Aead}
use psychic_computing_machin.Crypto.Blobcodec
use psychic_computing_machin.Gateway.{RefTarget, short_ext}

-- No quote and no newline.
abbrev pub is_plain : Bytes → Bool
is_plain s = not (contains b'"' s) && not (contains b'\n' s)

module _ {ℓ} {E : Type ℓ} (a : Aead) (key : Bytes) (nonce : Bytes → Result E Bytes) (prefix : Bytes)
    (id : ℤ) (resolve : Bytes → Result E RefTarget) where
  -- The extension of what the reference resolves to, if it is kept, has no quote and no newline.
  abbrev pub IsFit : Bytes → Type ℓ
  IsFit u = (t : RefTarget) → resolve u ≡ ok t → is_plain (short_ext t.path) ≡ true
