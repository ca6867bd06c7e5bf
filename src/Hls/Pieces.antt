-- ===== src/Hls/Pieces.antt =====
-- The matches of a tag line in gateway/internal/hls/rewrite.go: where they begin and end.
use psychic_computing_machin.Common.{
  ℕ, zero, suc, ◌+◌, ◌≤◌, ◌≡◌, refl, ap, sym, ◌∙◌, true, false, Option, none, some, [], ◌∷◌, ◌++◌,
  arith, length, take, drop, contains, nat_eq, Result, ok, err, Option-cases, Bool-cases, inl, inr,
}
use psychic_computing_machin.Common.Text.{Bytes, ascii, has_prefix}
use psychic_computing_machin.Hls.{
  plain, uri, uri_open, until_quote, cut_uris, replace_match, quoted,
}
use psychic_computing_machin.Hls.References.{is_link}

-- A match begins with the five bytes of `URI="`.
pub prefix-uri_open : (s : Bytes) → has_prefix s uri_open ≡ true → s ≡ uri_open ++ drop 5 s
prefix-uri_open [] h = ground arith
prefix-uri_open (a ∷ []) h = ground arith
prefix-uri_open (a ∷ b ∷ []) h = ground arith
prefix-uri_open (a ∷ b ∷ c ∷ []) h = ground arith
prefix-uri_open (a ∷ b ∷ c ∷ d ∷ []) h = ground arith
prefix-uri_open (a ∷ b ∷ c ∷ d ∷ e ∷ s) h = ground arith

pub has_prefix-take : (s : Bytes) → has_prefix (take 5 s) uri_open ≡ has_prefix s uri_open
has_prefix-take [] = refl
has_prefix-take (a ∷ []) = refl
has_prefix-take (a ∷ b ∷ []) = refl
has_prefix-take (a ∷ b ∷ c ∷ []) = refl
has_prefix-take (a ∷ b ∷ c ∷ d ∷ []) = refl
has_prefix-take (a ∷ b ∷ c ∷ d ∷ e ∷ s) = refl

pub take-uri_open : (n : ℕ) (x y : Bytes) → n ≤ 5 → take n (uri_open ++ x) ≡ take n (uri_open ++ y)
take-uri_open zero x y h = refl
take-uri_open (suc zero) x y h = refl
take-uri_open (suc (suc zero)) x y h = refl
take-uri_open (suc (suc (suc zero))) x y h = refl
take-uri_open (suc (suc (suc (suc zero)))) x y h = refl
take-uri_open (suc (suc (suc (suc (suc zero))))) x y h = refl
take-uri_open (suc (suc (suc (suc (suc (suc n)))))) x y h = ground arith

pub until_quote-lacks :
    (p t : Bytes) → contains b'"' p ≡ false → until_quote (p ++ (b'"' ∷ t)) ≡ some p
unfolding until_quote
until_quote-lacks [] t h = ground arith
until_quote-lacks (c ∷ p) t h = ground (arith, until_quote-lacks p t)

pub cut_uris-closed : (p t : Bytes) → cut_uris (suc (length p)) (p ++ (b'"' ∷ t)) ≡ cut_uris 0 t
unfolding cut_uris
cut_uris-closed [] t = refl
cut_uris-closed (c ∷ p) t = cut_uris-closed p t

pub plus_five : (n : ℕ) → n + 5 ≡ suc (suc (suc (suc (suc n))))
plus_five n = omega arith

pub cut_uris-quoted :
    (p t : Bytes) → contains b'"' p ≡ false → cut_uris 0 (quoted p t) ≡ uri p ∷ cut_uris 0 t
unfolding cut_uris
cut_uris-quoted p t h =
    rw (cut_uris, until_quote-lacks p t h)
      (ap (λ n. uri p ∷ cut_uris n (drop 1 (quoted p t))) (plus_five (length p))
        ∙ ap (λ ps. uri p ∷ ps) (cut_uris-closed p t))

-- A line opens with a byte outside every match, or with a match.
pub data UriSplit (c : ℕ) (s : Bytes) : Type 0 where
  outside :
      has_prefix (c ∷ s) uri_open ≡ false
      → cut_uris 0 (c ∷ s) ≡ plain c ∷ cut_uris 0 s
      → UriSplit c s
  unclosed :
      has_prefix (c ∷ s) uri_open ≡ true
      → until_quote (drop 4 s) ≡ none
      → cut_uris 0 (c ∷ s) ≡ plain c ∷ cut_uris 0 s
      → UriSplit c s
  matched :
      (u : Bytes)
      → has_prefix (c ∷ s) uri_open ≡ true
      → cut_uris 0 (c ∷ s) ≡ uri u ∷ cut_uris (length u + 5) s
      → UriSplit c s

pub cut_uris_cases : (c : ℕ) (s : Bytes) → UriSplit c s
unfolding cut_uris
cut_uris_cases c s = elim (Bool-cases (has_prefix (c ∷ s) uri_open)) [
  | inr other ↦ outside other (ground arith)
  | inl begins ↦ elim (Option-cases (until_quote (drop 4 s))) [
    | inl open_end ↦ unclosed begins open_end (ground arith)
    | inr (u, closed) ↦ matched u begins (ground arith)
  ]
]

pub until_open : (x : Bytes) → until_quote (uri_open ++ x) ≡ some (ascii "URI=")
unfolding until_quote
until_open x = ground arith

pub some-none : some (ascii "URI=") ≡ none → ⊥
some-none e = ground arith

pub until_quote-uri_open :
    (c : ℕ) (s : Bytes) → has_prefix (c ∷ s) uri_open ≡ true → ¬ (until_quote (c ∷ s) ≡ none)
until_quote-uri_open c s begins h =
    some-none
      (sym (until_open (drop 4 s)) ∙ sym (ap until_quote (prefix-uri_open (c ∷ s) begins)) ∙ h)

pub no_quote_tail : (c : ℕ) (s : Bytes) → until_quote (c ∷ s) ≡ none → until_quote s ≡ none
unfolding until_quote
no_quote_tail c s h = ground arith

-- A failed replacement leaves the text as it was, so either way five bytes stay.
pub take-replace_match {ℓ} :
    {E : Type ℓ} (n : ℕ) (u : Bytes) (r : Result E Bytes) (rest : Bytes × Option E) (x : Bytes)
    → n ≤ 5
    → take n (replace_match u r rest).0 ≡ take n (uri_open ++ x)
unfolding replace_match
take-replace_match n u (ok p) rest x h = take-uri_open n _ x h
take-replace_match n u (err e) (text, none) x h = take-uri_open n _ x h
take-replace_match n u (err e) (text, some later) x h = take-uri_open n _ x h

pub replace_match_succeeds {ℓ} :
    {E : Type ℓ} (u : Bytes) (r : Result E Bytes) (rest : Bytes × Option E)
    → (replace_match u r rest).1 ≡ none
    → (rest.1 ≡ none)
      × ((p : Bytes) × ((r ≡ ok p) × ((replace_match u r rest).0 ≡ quoted p rest.0)))
unfolding replace_match
replace_match_succeeds u (ok p) rest h = (h, (p, (refl, refl)))
replace_match_succeeds u (err e) (text, none) h = ground arith
replace_match_succeeds u (err e) (text, some later) h = ground arith

pub is_link-lacks_quote : (p : Bytes) → is_link p ≡ true → contains b'"' p ≡ false
unfolding is_link
is_link-lacks_quote [] h = ground arith
is_link-lacks_quote (c ∷ p) h = ground arith
