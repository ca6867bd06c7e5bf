-- ===== src/Nodeproto/SignatureLaws.antt =====
-- What a viewer signature of gateway/internal/nodeproto/nodeproto.go is bound to.
use psychic_computing_machin.Common.{
  ℕ, ◌/◌, ◌%◌, ◌<◌, ◌≡◌, ◌≢◌, ◌↔◌, refl, true, [], ◌∷◌, ◌++◌, All, arith, list_eq, nat_eq,
  same_list_iff, same_list, ◌⊎◌, inl, inr, Bool-cases, false-true, sym, ◌∙◌, ap,
}
use psychic_computing_machin.Common.Text.{Bytes, ascii}
use psychic_computing_machin.Common.Decimal.{ℤ, format_int}
use psychic_computing_machin.Common.Decimal.Laws.{format_int-injective, format_int-lacks}
use psychic_computing_machin.Nodeproto.{
  hex_digit, hex_encode, sign_message, Hashing, derive, sign, verify,
}

abbrev NoBar : Bytes → Type 0
NoBar = All (λ c. c ≢ b'|')

format_int-NoBar : (a : ℤ) → NoBar (format_int a)
format_int-NoBar a = format_int-lacks a b'|' (omega arith) (omega arith)

-- The first bar ends the field.
field_unique :
    (p q r s : Bytes) → NoBar p → NoBar q → p ++ (b'|' ∷ r) ≡ q ++ (b'|' ∷ s) → (p ≡ q) × (r ≡ s)
field_unique [] [] r s hp hq e = ground arith
field_unique [] (c ∷ q) r s hp hq e = ground arith
field_unique (c ∷ p) [] r s hp hq e = ground arith
field_unique (c ∷ p) (d ∷ q) r s hp hq e = ground (arith, field_unique p q r s hp.1 hq.1)

-- The message that is signed determines the stream, the access point, the token and the expiry.
pub sign_message-injective :
    (s a t e s' a' t' e' : ℤ)
    → sign_message s a t e ≡ sign_message s' a' t' e'
    → (s ≡ s') × (a ≡ a') × (t ≡ t') × (e ≡ e')
unfolding sign_message
sign_message-injective s a t e s' a' t' e' h =
    let (first, rest₁) =
      field_unique (format_int s) (format_int s') _ _ (format_int-NoBar s) (format_int-NoBar s')
        (tails h) in
    let (second, rest₂) =
      field_unique (format_int a) (format_int a') _ _ (format_int-NoBar a) (format_int-NoBar a')
        rest₁ in
    let (third, fourth) =
      field_unique (format_int t) (format_int t') _ _ (format_int-NoBar t) (format_int-NoBar t')
        rest₂ in
    (
      format_int-injective s s' first,
      format_int-injective a a' second,
      format_int-injective t t' third,
      format_int-injective e e' fourth,
    )
  where
    tails : {p q : Bytes} → ascii "v1|" ++ p ≡ ascii "v1|" ++ q → p ≡ q
    tails e = ground arith

-- Two bytes with the same hex digits are equal.
hex_byte-injective :
    (a b : ℕ)
    → a < 256
    → b < 256
    → hex_digit (a / 16) ≡ hex_digit (b / 16)
    → hex_digit (a % 16) ≡ hex_digit (b % 16)
    → a ≡ b
unfolding hex_digit
hex_byte-injective a b ha hb h l = ground arith

abbrev pub IsBytes : Bytes → Type 0
IsBytes = All (λ b. b < 256)

hex_encode-injective : (x y : Bytes) → IsBytes x → IsBytes y → hex_encode x ≡ hex_encode y → x ≡ y
unfolding hex_encode
hex_encode-injective [] [] hx hy e = refl
hex_encode-injective [] (b ∷ y) hx hy e = ground arith
hex_encode-injective (a ∷ x) [] hx hy e = ground arith
hex_encode-injective (a ∷ x) (b ∷ y) (ha, hx) (hb, hy) e =
    ground (arith, hex_byte-injective a b ha hb, hex_encode-injective x y hx hy)

module _ (h : Hashing) where
  -- Two messages with one HMAC.
  abbrev pub Collides : Bytes → Bytes → Bytes → Type 0
  Collides key m n = (m ≢ n) × (h.hmac key m ≡ h.hmac key n)

  -- The signature of one grant verifies for another exactly if the two are the same grant (same
  -- stream, access point, token and expiry) or the messages of the two differ and their HMACs under
  -- the node's key are equal, which takes a collision of HMAC itself. HMAC is assumed to return
  -- bytes.
  pub verify_bound :
      (secret : Bytes) (s a t e s' a' t' e' : ℤ)
      → ((key message : Bytes) → IsBytes (h.hmac key message))
      → (verify h secret s a t e (sign h secret s' a' t' e') ≡ true) ↔ (
          ((s ≡ s') × (a ≡ a') × (t ≡ t') × (e ≡ e'))
          ⊎ Collides
              (derive h (ascii "sign") secret)
              (sign_message s a t e)
              (sign_message s' a' t' e'))
  unfolding verify sign
  verify_bound secret s a t e s' a' t' e' bytes = (sound, complete)
    where
      key : Bytes
      key = derive h (ascii "sign") secret

      m : Bytes
      m = sign_message s a t e

      n : Bytes
      n = sign_message s' a' t' e'

      Grant : Type 0
      Grant = (s ≡ s') × (a ≡ a') × (t ≡ t') × (e ≡ e')

      sound : verify h secret s a t e (sign h secret s' a' t' e') ≡ true → Grant ⊎ Collides key m n
      sound v =
          let codes =
            hex_encode-injective _ _ (bytes key _) (bytes key _) ((same_list_iff _ _).0 v) in
          elim (Bool-cases (same_list m n)) [
            | inl q ↦ inl (sign_message-injective s a t e s' a' t' e' ((same_list_iff m n).0 q))
            | inr q ↦ inr ((λ u. false-true (sym q ∙ (same_list_iff m n).1 u)), codes)
          ]

      complete :
          Grant ⊎ Collides key m n → verify h secret s a t e (sign h secret s' a' t' e') ≡ true
      complete (inl (p, q, r, u)) = (same_list_iff (sign h secret s a t e) _).1 (cc)
      complete (inr (_, codes)) =
          (same_list_iff (sign h secret s a t e) _).1 (ap (λ x. hex_encode x) codes)
