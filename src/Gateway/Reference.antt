-- ===== src/Gateway/Reference.antt =====
-- The links that the gateway writes into a playlist: `encodeRef` of
-- gateway/internal/gatewayhttp/handler.go.
use psychic_computing_machin.Common.{
  ◌||◌, not, [], ◌∷◌, ◌++◌, length, ltb, eqb, contains, nat_eq, if◌then◌else◌, Result, ok, ◌>>=◌,
}
use psychic_computing_machin.Common.Text.{Bytes, ascii}
use psychic_computing_machin.Common.Decimal.{ℤ, format_int}
use psychic_computing_machin.Crypto.Aead.{Aead}
use psychic_computing_machin.Crypto.Blobcodec

-- A resolved reference: `String()` of the URL, and its decoded path.
pub record RefTarget : Type 0 where
  pub text : Bytes
  pub path : Bytes

-- path.Ext: from the last dot of what follows the last slash.
unfoldable pub path_ext : Bytes → Bytes
path_ext [] = []
path_ext (c ∷ s) =
    let later = path_ext s in
    if contains b'/' s || not (eqb (length later) 0)
    then later
    else if eqb c b'.'
    then c ∷ s
    else []

unfoldable pub short_ext : Bytes → Bytes
unfolding path_ext
short_ext path = if ltb 8 (length (path_ext path)) then [] else path_ext path

-- The nonce of a blob is drawn at random, which may fail; it is an argument for each address.
module _ {ℓ} {E : Type ℓ} (a : Aead) (key : Bytes) (nonce : Bytes → Result E Bytes) where
  unfoldable pub encode_ref : Bytes → ℤ → RefTarget → Result E Bytes
  unfolding short_ext
  encode_ref prefix access_point_id target = nonce target.text >>= (λ n.
      let blob = Blobcodec.encode a key n target.text (format_int access_point_id) in
      ok (b'/' ∷ (prefix ++ (ascii "/r/" ++ (blob ++ short_ext target.path)))))
