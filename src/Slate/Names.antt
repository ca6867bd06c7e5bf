-- ===== src/Slate/Names.antt =====
-- What the tests of names in gateway/internal/slate/slate.go and slate/text.go let through.
use psychic_computing_machin.Common.{
  ◌≡◌, refl, ap, sym, ◌∙◌, Bool, true, false, ◌&&◌, ◌||◌, not, ◌⊎◌, inl, inr, List, [], ◌∷◌, ◌++◌,
  arith, eqb, length, if_keeps, ◌==◌, list_eq, nat_eq, ℕ, zero, suc, ◌+◌, ◌-◌, length-append,
  false-true, or_split, if◌then◌else◌, ◌≤◌, All, take, drop, and_split, eqb_iff, same_list_iff, leb,
  Option, none, some, option_keeps, take-append-drop,
}
use psychic_computing_machin.Common.Text.{Bytes, ascii, index, has_prefix, has_suffix}
use psychic_computing_machin.Slate.{
  valid_variant, valid_slate_name, valid_key, valid_reason, all_lower_hex, all_digits,
  valid_segment, segment_digits, split_variant, cut_colon, reason_or, default_reason,
  temporary_reason, temporary,
}

-- A name: the playlist, or `seg`, six to nine digits, `.ts`.
pub data IsName (name : Bytes) : Type 0 where
  manifest : name ≡ ascii "index.m3u8" → IsName name
  numbered :
      (digits : Bytes)
      → name ≡ ascii "seg" ++ (digits ++ ascii ".ts")
      → 6 ≤ length digits
      → length digits ≤ 9
      → All (λ c. (b'0' ≤ c) × (c ≤ b'9')) digits
      → IsName name

-- No key, or forty digits of lower-case hexadecimal.
abbrev pub IsKey : Bytes → Type 0
IsKey key =
    (key ≡ [])
    ⊎ ((length key ≡ 40) × All (λ c. ((b'0' ≤ c) × (c ≤ b'9')) ⊎ ((b'a' ≤ c) × (c ≤ b'f'))) key)

-- The reasons for which a stream is gone for good.
pub data IsLasting (reason : Bytes) : Type 0 where
  bandwidth : reason ≡ ascii "limited_bandwidth" → IsLasting reason
  intended : reason ≡ ascii "not_intended_for_public" → IsLasting reason
  redistribution : reason ≡ ascii "unauthorized_redistribution" → IsLasting reason
  revoked : reason ≡ ascii "access_revoked_by_owner" → IsLasting reason
  discontinued : reason ≡ ascii "stream_permanently_discontinued" → IsLasting reason

-- A variant: one of two words, followed or not by a colon and a reason that goes with it.
pub data IsVariant (variant : Bytes) : Type 0 where
  lasting : variant ≡ ascii "unavailable" → IsVariant variant
  passing : variant ≡ ascii "temporarily-unavailable" → IsVariant variant
  lasting_for :
      (reason : Bytes)
      → variant ≡ ascii "unavailable" ++ (b':' ∷ reason)
      → IsLasting reason
      → IsVariant variant
  passing_for :
      variant ≡ ascii "temporarily-unavailable" ++ (b':' ∷ ascii "temporarily_unavailable")
      → IsVariant variant

all_lower_hex-All :
    (s : Bytes)
    → all_lower_hex s ≡ true
    → All (λ c. ((b'0' ≤ c) × (c ≤ b'9')) ⊎ ((b'a' ≤ c) × (c ≤ b'f'))) s
all_lower_hex-All [] h = tt
all_lower_hex-All (c ∷ s) h = (ground (arith, h), all_lower_hex-All s (ground (arith, h)))

all_digits-All : (s : Bytes) → all_digits s ≡ true → All (λ c. (b'0' ≤ c) × (c ≤ b'9')) s
all_digits-All [] h = tt
all_digits-All (c ∷ s) h = (ground (arith, h), all_digits-All s (ground (arith, h)))

pub valid_key-IsKey :
    (key : Bytes) → (eqb (length key) 0 ≡ true) ⊎ (valid_key key ≡ true) → IsKey key
unfolding valid_key
valid_key-IsKey [] h = inl refl
valid_key-IsKey (c ∷ s) (inl h) = ground arith
valid_key-IsKey (c ∷ s) (inr h) =
    let (forty, hex) = and_split (eqb (length (c ∷ s)) 40) (all_lower_hex (c ∷ s)) h in
    inr ((eqb_iff _ 40).0 forty, all_lower_hex-All (c ∷ s) hex)

-- `^seg` and `\.ts$` cut a name in three.
has_prefix-cut : (s p : Bytes) → has_prefix s p ≡ true → s ≡ p ++ drop (length p) s
has_prefix-cut s [] h = refl
has_prefix-cut [] (c ∷ p) h = ground arith
has_prefix-cut (d ∷ s) (c ∷ p) h =
    let (first, rest) = and_split (eqb d c) (has_prefix s p) h in
    ap (λ x. x ∷ s) ((eqb_iff d c).0 first) ∙ ap (λ l. c ∷ l) (has_prefix-cut s p rest)

drop-nil : {A : Type 0} (n : ℕ) → drop {A = A} n [] ≡ []
drop-nil zero = refl
drop-nil (suc n) = refl

drop-drop : {A : Type 0} (k m : ℕ) (xs : List A) → drop m (drop k xs) ≡ drop (k + m) xs
drop-drop zero m xs = ap (λ j. drop j xs) {x = m} {y = 0 + m} (omega arith)
drop-drop (suc k) m [] = drop-nil m ∙ sym (drop-nil (suc k + m))
drop-drop (suc k) m (x ∷ xs) =
    drop-drop k m xs ∙ ap (λ j. drop j (x ∷ xs)) {x = suc (k + m)} {y = suc k + m} (omega arith)

-- The name is its first three bytes, the digits, and its last three bytes.
segment-IsName :
    (name : Bytes)
    → has_prefix name (ascii "seg") ≡ true
    → drop (length name - 3) name ≡ ascii ".ts"
    → 12 ≤ length name
    → length name ≤ 15
    → all_digits (segment_digits name) ≡ true
    → IsName name
unfolding segment_digits
segment-IsName name start end low high digits =
    let n = length name in
    let rest = drop 3 name in
    let tail = drop-drop 3 (n - 6) name ∙ ap (λ k. drop k name) (omega (arith, low)) ∙ end in
    let whole =
      has_prefix-cut name (ascii "seg") start
      ∙ ap (λ l. ascii "seg" ++ l)
          (sym (take-append-drop (n - 6) rest) ∙ ap (λ l. take (n - 6) rest ++ l) tail) in
    let measured = ap (λ l. length l) whole in
    let parts = length-append (take (n - 6) rest) (ascii ".ts") in
    numbered (take (n - 6) rest) whole (omega (arith, measured, parts, low))
      (omega (arith, measured, parts, high)) (all_digits-All _ digits)

valid_segment-IsName : (name : Bytes) → valid_segment name ≡ true → IsName name
unfolding valid_segment has_suffix
valid_segment-IsName name h =
    let (start, h₁) = and_split (has_prefix name (ascii "seg")) _ h in
    let (end, h₂) = and_split (has_suffix name (ascii ".ts")) _ h₁ in
    let (sized, digits) = and_split (leb 12 (length name) && leb (length name) 15) _ h₂ in
    let (_, last) = and_split (leb 3 (length name)) _ end in
    segment-IsName name start ((same_list_iff _ _).0 last) (ground (arith, sized))
      (ground (arith, sized)) digits

pub valid_slate_name-IsName : (name : Bytes) → valid_slate_name name ≡ true → IsName name
unfolding valid_slate_name
valid_slate_name-IsName name h = elim (or_split (name == ascii "index.m3u8") _ h) [
  | inl e ↦ manifest ((same_list_iff _ _).0 e)
  | inr e ↦ valid_segment-IsName name e
]

-- A colon is found where the text is cut.
index-cut :
    (s : Bytes) (i : ℕ) → index s (ascii ":") ≡ some i → s ≡ take i s ++ (b':' ∷ drop (suc i) s)
unfolding index
index-cut [] i h = ground arith
index-cut (c ∷ s) zero h = ap (λ x. x ∷ s) (ground arith)
index-cut (c ∷ s) (suc i) h = ap (λ l. c ∷ l) (index-cut s i (ground arith))

abbrev joined : Bytes × Option Bytes → Bytes
joined (base, none) = base
joined (base, some reason) = base ++ (b':' ∷ reason)

cut_colon-joined : (v : Bytes) → v ≡ joined (cut_colon v)
unfolding cut_colon
cut_colon-joined v =
    option_keeps (λ (p : Bytes × Option Bytes). v ≡ joined p) (index v (ascii ":")) (λ _. refl)
      (λ i found. index-cut v i found)

known_reason : (r : Bytes) → valid_reason r ≡ true → IsLasting r ⊎ (r ≡ temporary_reason)
unfolding valid_reason
known_reason r h = elim (or_split (ascii "limited_bandwidth" == r) _ h) [
  | inl e ↦ inl (bandwidth (sym ((same_list_iff _ _).0 e)))
  | inr h₁ ↦ elim (or_split (ascii "not_intended_for_public" == r) _ h₁) [
    | inl e ↦ inl (intended (sym ((same_list_iff _ _).0 e)))
    | inr h₂ ↦ elim (or_split (default_reason == r) _ h₂) [
      | inl e ↦ inl (redistribution (sym ((same_list_iff _ _).0 e)))
      | inr h₃ ↦ elim (or_split (ascii "access_revoked_by_owner" == r) _ h₃) [
        | inl e ↦ inl (revoked (sym ((same_list_iff _ _).0 e)))
        | inr h₄ ↦ elim (or_split (ascii "stream_permanently_discontinued" == r) _ h₄) [
          | inl e ↦ inl (discontinued (sym ((same_list_iff _ _).0 e)))
          | inr h₅ ↦ elim (or_split (temporary_reason == r) false h₅) [
            | inl e ↦ inr (sym ((same_list_iff _ _).0 e))
            | inr e ↦ elim (false-true e) [ ]
          ]
        ]
      ]
    ]
  ]
]

-- What the tests of a variant leave.
kept :
    (u t r x : Bool)
    → (not u && not t) ≡ false
    → (not r || ((t && not x) || (u && x))) ≡ false
    → (r ≡ true) × (((u ≡ true) × (x ≡ false)) ⊎ ((t ≡ true) × (x ≡ true)))
kept true true r true h g = ground arith
kept true t r false h g = (ground arith, inl (refl, refl))
kept true false r true h g = ground arith
kept false true r true h g = (ground arith, inr (refl, refl))
kept false true r false h g = ground arith
kept false false r x h g = ground arith

word-IsVariant :
    (v base : Bytes) (given : Option Bytes) (default : Bytes)
    → v ≡ joined (base, given)
    → (not (base == ascii "unavailable") && not (base == temporary)) ≡ false
    → (not (valid_reason (reason_or default given))
        || (((base == temporary) && not (reason_or default given == temporary_reason))
            || ((base == ascii "unavailable") && (reason_or default given == temporary_reason))))
      ≡ false
    → IsVariant v
word-IsVariant v base none default e words fits = elim (kept _ _ _ _ words fits).1 [
  | inl (u, _) ↦ lasting (e ∙ (same_list_iff _ _).0 u)
  | inr (t, _) ↦ passing (e ∙ (same_list_iff _ _).0 t)
]
word-IsVariant v base (some r) default e words fits =
    let (valid, word) = kept _ _ _ _ words fits in
    elim word [
      | inl (u, other) ↦ elim (known_reason r valid) [
        | inl last ↦ lasting_for r (e ∙ ap (λ b. b ++ (b':' ∷ r)) ((same_list_iff _ _).0 u)) last
        | inr same ↦ elim (false-true (sym other ∙ (same_list_iff r temporary_reason).1 same)) [ ]
      ]
      | inr (t, same) ↦ passing_for (
          e
          ∙ ap (λ b. b ++ (b':' ∷ r)) ((same_list_iff _ _).0 t)
          ∙ ap (λ x. temporary ++ (b':' ∷ x)) ((same_list_iff _ _).0 same))
    ]

abbrev is_split : Option (Bytes × Bytes) → Bool
is_split o = elim o [ none ↦ false | some _ ↦ true ]

pub valid_variant-IsVariant : (v : Bytes) → valid_variant v ≡ true → IsVariant v
unfolding valid_variant split_variant
valid_variant-IsVariant v =
    let base = (cut_colon v).0 in
    let given = (cut_colon v).1 in
    let default = if base == temporary then temporary_reason else default_reason in
    let reason = reason_or default given in
    if_keeps Q (not (base == ascii "unavailable") && not (base == temporary)) (λ _ h. ground arith)
      (λ words.
        if_keeps Q
          (not (valid_reason reason)
            || (((base == temporary) && not (reason == temporary_reason))
                || ((base == ascii "unavailable") && (reason == temporary_reason))))
          (λ _ h. ground arith)
          (λ fits _. word-IsVariant v base given default (cut_colon-joined v) words fits))
  where
    Q : Option (Bytes × Bytes) → Type 0
    Q o = is_split o ≡ true → IsVariant v
