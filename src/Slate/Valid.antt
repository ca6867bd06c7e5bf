-- ===== src/Slate/Valid.antt =====
-- What `serveSlate` of gateway/internal/gatewayhttp/handler.go asks the slate manager for.
use psychic_computing_machin.Common.{
  ◌≡◌, refl, ap, sym, subst, ◌∙◌, Bool, true, false, ◌&&◌, ◌||◌, not, ◌⊎◌, inl, inr, List, [], ◌∷◌,
  ◌++◌, arith, eqb, length, if_keeps, ◌==◌, list_eq, nat_eq,
}
use psychic_computing_machin.Common.Text.{Bytes, ascii, split, trim_prefix}
use psychic_computing_machin.Slate.{
  SlatePage, page, check_page, slate_parts, serve_slate, valid_variant, valid_slate_name, valid_key,
  valid_reason, slate_route_parts,
}
use psychic_computing_machin.Slate.Names.{
  IsVariant, IsName, IsKey, valid_variant-IsVariant, valid_slate_name-IsName, valid_key-IsKey,
}

-- What the provider may be asked for.
pub record IsPage (variant key name : Bytes) : Type 0 where
  pub kind : IsVariant variant
  pub file : IsName name
  pub secret : IsKey key

-- The same by the tests of the program.
record Passes (variant key name : Bytes) : Type 0 where
  pub kind : valid_variant variant ≡ true
  pub file : valid_slate_name name ≡ true
  pub secret : (eqb (length key) 0 ≡ true) ⊎ (valid_key key ≡ true)

abbrev Asks : SlatePage → Bytes → Bytes → Bytes → Type 0
Asks p variant key name = p ≡ page variant key name → Passes variant key name

not-false : (a : Bool) → not a ≡ false → a ≡ true
not-false a h = ground arith

passes :
    (a b c : Bool) → (not a || (not b && not c)) ≡ false → (a ≡ true) × ((b ≡ true) ⊎ (c ≡ true))
passes true true c h = (refl, inl refl)
passes true false true h = (refl, inr refl)
passes true false false h = ground arith
passes false b c h = ground arith

page_injective :
    (v k n variant key name : Bytes)
    → page v k n ≡ page variant key name
    → (v ≡ variant) × ((k ≡ key) × (n ≡ name))
page_injective v k n variant key name e = (ground arith, (ground arith, ground arith))

check_page-Asks : (v k n variant key name : Bytes) → Asks (check_page v k n) variant key name
unfolding check_page
check_page-Asks v k n variant key name =
    if_keeps Q (not (valid_variant v)) (λ _ e. ground arith)
      (λ kind.
        if_keeps Q (not (valid_slate_name n) || (not (eqb (length k) 0) && not (valid_key k)))
          (λ _ e. ground arith)
          (λ good e.
            let tests = passes (valid_slate_name n) (eqb (length k) 0) (valid_key k) good in
            let (a, (b, c)) = page_injective v k n variant key name e in
            record {
              kind = ap (λ x. valid_variant x) (sym a) ∙ not-false (valid_variant v) kind;
              file = ap (λ x. valid_slate_name x) (sym c) ∙ tests.0;
              secret = subst (λ x. (eqb (length x) 0 ≡ true) ⊎ (valid_key x ≡ true)) b tests.1;
            }))
  where
    Q : SlatePage → Type 0
    Q p = Asks p variant key name

slate_parts-Asks :
    (parts : List Bytes) (variant key name : Bytes) → Asks (slate_parts parts) variant key name
unfolding slate_parts
slate_parts-Asks [] variant key name = λ e. ground arith
slate_parts-Asks (a ∷ []) variant key name = λ e. ground arith
slate_parts-Asks (a ∷ b ∷ []) variant key name = λ e. ground arith
slate_parts-Asks (a ∷ b ∷ c ∷ []) variant key name = λ e. ground arith
slate_parts-Asks (a ∷ b ∷ c ∷ d ∷ []) variant key name =
    if_keeps (λ p. Asks p variant key name)
      ((a == ascii "_sv") && ((b == ascii "slate") && valid_variant c))
      (λ _. check_page-Asks (c ++ (b':' ∷ (slate_route_parts c).1)) [] d variant key name)
      (λ _ e. ground arith)
slate_parts-Asks (a ∷ b ∷ c ∷ d ∷ f ∷ []) variant key name =
    if_keeps (λ p. Asks p variant key name)
      ((a == ascii "_sv") && ((b == ascii "slate") && valid_variant c))
      (λ _.
        if_keeps (λ p. Asks p variant key name) (valid_reason d)
          (λ _. check_page-Asks (c ++ (b':' ∷ d)) [] f variant key name)
          (λ _. check_page-Asks (c ++ (b':' ∷ (slate_route_parts c).1)) d f variant key name))
      (λ _ e. ground arith)
slate_parts-Asks (a ∷ b ∷ c ∷ d ∷ f ∷ g ∷ []) variant key name =
    if_keeps (λ p. Asks p variant key name)
      ((a == ascii "_sv") && ((b == ascii "slate") && valid_variant c))
      (λ _. check_page-Asks (c ++ (b':' ∷ d)) f g variant key name) (λ _ e. ground arith)
slate_parts-Asks (a ∷ b ∷ c ∷ d ∷ f ∷ g ∷ h ∷ rest) variant key name = λ e. ground arith

-- The provider is only ever asked for one of the two words, alone or with a reason that goes with
-- it, for the playlist or a segment of six to nine digits, and with no key or one of forty
-- lower-case hexadecimal digits.
pub serve_slate-IsPage :
    (path variant key name : Bytes)
    → serve_slate path ≡ page variant key name
    → IsPage variant key name
unfolding serve_slate
serve_slate-IsPage path variant key name e =
    let tests : Passes variant key name =
      slate_parts-Asks (split b'/' (trim_prefix path (ascii "/"))) variant key name e in
    record {
      kind = valid_variant-IsVariant variant tests.kind;
      file = valid_slate_name-IsName name tests.file;
      secret = valid_key-IsKey key tests.secret;
    }
