-- ===== src/Hls/Links.antt =====
-- The playlists that gateway/internal/hls/rewrite.go writes refer to gateway links only.
use psychic_computing_machin.Common.{
  ℕ, zero, suc, ◌+◌, ◌≤◌, ◌≡◌, refl, ap, sym, subst, ◌∙◌, true, false, Option, none, some, List, [],
  ◌∷◌, ◌++◌, map, arith, length, map-append, take, drop, nat_eq, Result, ok, err, ◌>>=◌, Bool-cases,
  inl, inr, All, All-split,
}
use psychic_computing_machin.Common.Text.{Bytes, ascii, has_prefix, trim_right}
use psychic_computing_machin.Hls.{
  Piece, plain, uri, uri_open, until_quote, cut_uris, proxied, replace_uris, rewrite_tag_attrs,
  rewrite_line, rewrite_trimmed, rewrite_lines,
}
use psychic_computing_machin.Hls.References.{uris, line_references, references, is_link}
use psychic_computing_machin.Hls.Pieces.{
  prefix-uri_open, has_prefix-take, cut_uris-quoted, cut_uris_cases, until_quote-uri_open,
  no_quote_tail, take-replace_match, replace_match_succeeds, is_link-lacks_quote, outside, unclosed,
  matched,
}

module _ {ℓ} {E : Type ℓ} {Url : Type 0} (resolve : Bytes → Result E Url)
    (encode : Url → Result E Bytes) where
  -- A tag line after its URIs are replaced, with the error of the last that failed.
  abbrev replaced : ℕ → Bytes → Bytes × Option E
  replaced skip s = replace_uris resolve encode (cut_uris skip s)

  no_quote-replaced : (s : Bytes) → until_quote s ≡ none → replaced 0 s ≡ (s, none)
  unfolding replace_uris cut_uris until_quote
  no_quote-replaced [] h = refl
  no_quote-replaced (c ∷ s) h = elim (cut_uris_cases c s) [
    | outside _ cut ↦ rw (cut, no_quote-replaced s (no_quote_tail c s h))
    | unclosed _ _ cut ↦ rw (cut, no_quote-replaced s (no_quote_tail c s h))
    | matched u begins cut ↦ elim (until_quote-uri_open c s begins h) [ ]
  ]

  take-replaced : (n : ℕ) (s : Bytes) → n ≤ 5 → take n (replaced 0 s).0 ≡ take n s
  unfolding replace_uris cut_uris
  take-replaced zero s h = refl
  take-replaced (suc n) [] h = refl
  take-replaced (suc n) (c ∷ s) h = elim (cut_uris_cases c s) [
    | outside _ cut ↦ rw (cut, take-replaced n s (omega arith))
    | unclosed _ _ cut ↦ rw (cut, take-replaced n s (omega arith))
    | matched u begins cut ↦
        ap (λ ps. take (suc n) (replace_uris resolve encode ps).0) cut
        ∙ (take-replace_match (suc n) u (proxied resolve encode u)
              (replace_uris resolve encode (cut_uris (length u + 5) s)) (drop 4 s) h
            ∙ sym (ap (λ l. take (suc n) l) (prefix-uri_open (c ∷ s) begins)))
  ]

  -- What is to be shown of the pieces of a line.
  abbrev Agrees : List Piece → Type ℓ
  Agrees ps =
      (replace_uris resolve encode ps).1 ≡ none
      → map (λ u. proxied resolve encode u) (uris ps)
        ≡ map (λ p. ok p) (uris (cut_uris 0 (replace_uris resolve encode ps).0))

  plain-Agrees :
      (c : ℕ) (ps : List Piece)
      → cut_uris 0 (c ∷ (replace_uris resolve encode ps).0)
        ≡ plain c ∷ cut_uris 0 (replace_uris resolve encode ps).0
      → Agrees ps
      → Agrees (plain c ∷ ps)
  unfolding replace_uris uris
  plain-Agrees c ps cut agrees h = agrees h ∙ sym (ap (λ qs. map (λ p. ok p) (uris qs)) cut)

  cut_uris-outside :
      (c : ℕ) (s : Bytes)
      → has_prefix (c ∷ s) uri_open ≡ false
      → cut_uris 0 (c ∷ s) ≡ plain c ∷ cut_uris 0 s
  unfolding cut_uris
  cut_uris-outside c s h = ground arith

  -- What becomes of the reference is a link.
  abbrev pub IsLinked : Bytes → Type ℓ
  IsLinked u = (p : Bytes) → proxied resolve encode u ≡ ok p → is_link p ≡ true

  uri-Agrees : (u : Bytes) (ps : List Piece) → IsLinked u → Agrees ps → Agrees (uri u ∷ ps)
  unfolding replace_uris uris
  uri-Agrees u ps links agrees h =
      let (rest, (p, (good, text))) =
        replace_match_succeeds u (proxied resolve encode u) (replace_uris resolve encode ps) h in
      let after = replace_uris resolve encode ps in
      let closed = is_link-lacks_quote p (links p good) in
      ap (λ r. r ∷ map (λ u. proxied resolve encode u) (uris ps)) good
      ∙ (ap (λ l. ok p ∷ l) (agrees rest)
          ∙ sym (
              ap (λ l. map (λ q. ok q) (uris (cut_uris zero l))) text
              ∙ ap (λ qs. map (λ q. ok q) (uris qs)) (cut_uris-quoted p after.0 closed)))

  kept_prefix :
      (c : ℕ) (s : Bytes) → has_prefix (c ∷ (replaced 0 s).0) uri_open ≡ has_prefix (c ∷ s) uri_open
  kept_prefix c s =
      sym (has_prefix-take (c ∷ (replaced 0 s).0))
      ∙ (ap (λ r. has_prefix (c ∷ r) uri_open) (take-replaced 4 s (omega arith))
          ∙ has_prefix-take (c ∷ s))

  unclosed-replaced :
      (c : ℕ) (s : Bytes)
      → has_prefix (c ∷ s) uri_open ≡ true
      → until_quote (drop 4 s) ≡ none
      → (replaced 0 s).0 ≡ s
  unfolding replace_uris cut_uris
  unclosed-replaced c s begins open_end =
      let tail = ap (λ l. drop 1 l) (prefix-uri_open (c ∷ s) begins) in
      ap (λ l. (replaced 0 l).0) tail
      ∙ (ap (λ r. drop 1 uri_open ++ r.0) (no_quote-replaced (drop 4 s) open_end) ∙ sym tail)

  pub uris-replaced :
      (skip : ℕ) (s : Bytes) → All IsLinked (uris (cut_uris skip s)) → Agrees (cut_uris skip s)
  unfolding cut_uris replace_uris uris
  uris-replaced skip [] links = λ _. refl
  uris-replaced (suc skip) (c ∷ s) links = uris-replaced skip s links
  uris-replaced zero (c ∷ s) links = elim (cut_uris_cases c s) [
    | outside other cut ↦
        subst (λ ps. Agrees ps) (sym cut)
          (plain-Agrees c (cut_uris 0 s)
            (cut_uris-outside c ((replaced 0 s).0) (kept_prefix c s ∙ other))
            (uris-replaced 0 s (at cut)))
    | unclosed begins open_end cut ↦
        subst (λ ps. Agrees ps) (sym cut)
          (plain-Agrees c (cut_uris 0 s)
            (subst (λ l. cut_uris 0 (c ∷ l) ≡ plain c ∷ cut_uris 0 l)
              (sym (unclosed-replaced c s begins open_end)) cut)
            (uris-replaced 0 s (at cut)))
    | matched u begins cut ↦
        let (first, rest) = at cut in
        subst (λ ps. Agrees ps) (sym cut)
          (uri-Agrees u _ first (uris-replaced (length u + 5) s rest))
  ]
    where
      at : {ps : List Piece} → cut_uris 0 (c ∷ s) ≡ ps → All IsLinked (uris ps)
      at cut = subst (λ ps. All IsLinked (uris ps)) cut links

  line_references-tag :
      (l : Bytes) → has_prefix l (ascii "#") ≡ true → line_references l ≡ uris (cut_uris 0 l)
  unfolding line_references
  line_references-tag [] h = ground arith
  line_references-tag (c ∷ s) h = ground arith

  line_references-link : (p : Bytes) → is_link p ≡ true → line_references p ≡ p ∷ []
  unfolding line_references is_link
  line_references-link [] h = ground arith
  line_references-link (c ∷ s) h = ground arith

  first_byte : (s : Bytes) → has_prefix (take 1 s) (ascii "#") ≡ has_prefix s (ascii "#")
  first_byte [] = refl
  first_byte (c ∷ s) = refl

  tag_ok :
      (r : Bytes × Option E) (out : Bytes)
      → (elim r.1 [ none ↦ ok r.0 | some e ↦ err e ]) ≡ ok out
      → (r.1 ≡ none) × (r.0 ≡ out)
  tag_ok (text, none) out h = ground arith
  tag_ok (text, some e) out h = ground arith

  -- What one line becomes once it is free of its carriage return.
  tag_links :
      (l out : Bytes)
      → All IsLinked (line_references l)
      → has_prefix l (ascii "#") ≡ true
      → rewrite_tag_attrs resolve encode l ≡ ok out
      → map (λ u. proxied resolve encode u) (line_references l)
        ≡ map (λ p. ok p) (line_references out)
  unfolding rewrite_tag_attrs
  tag_links l out links begins h =
      let (good, text) = tag_ok (replaced 0 l) out h in
      let first =
        sym (first_byte (replaced 0 l).0)
        ∙ (ap (λ t. has_prefix t (ascii "#")) (take-replaced 1 l (omega arith)) ∙ first_byte l) in
      let opens = ap (λ t. has_prefix t (ascii "#")) (sym text) ∙ (first ∙ begins) in
      ap (λ us. map (λ u. proxied resolve encode u) us) (line_references-tag l begins)
      ∙ (uris-replaced 0 l (subst (λ us. All IsLinked us) (line_references-tag l begins) links) good
          ∙ (ap (λ t. map (λ p. ok p) (uris (cut_uris 0 t))) text
              ∙ sym (ap (λ us. map (λ p. ok p) us) (line_references-tag out opens))))

  ok_injective : (a b : Bytes) → ◌≡◌ {A = Result E Bytes} (ok a) (ok b) → a ≡ b
  ok_injective a b h = ground arith

  oks_injective : (a b : List Bytes) → ◌≡◌ {A = Result E (List Bytes)} (ok a) (ok b) → a ≡ b
  oks_injective a b h = ground arith

  trimmed_links :
      (l out : Bytes)
      → All IsLinked (line_references l)
      → rewrite_trimmed resolve encode l ≡ ok out
      → map (λ u. proxied resolve encode u) (line_references l)
        ≡ map (λ p. ok p) (line_references out)
  unfolding rewrite_trimmed line_references
  trimmed_links [] out links h =
      ap (λ l. map (λ p. ok p) (line_references l)) (ok_injective [] out h)
  trimmed_links (c ∷ s) out links h = elim (Bool-cases (has_prefix (c ∷ s) (ascii "#"))) [
    | inl tag ↦ tag_links (c ∷ s) out links tag (sym (rw tag refl) ∙ h)
    | inr other ↦
        let good = sym (rw other refl) ∙ h in
        let first : IsLinked (c ∷ s) =
          (subst (λ us. All IsLinked us) {y = (c ∷ s) ∷ []} (rw other refl) links).0 in
        ap (λ us. map (λ u. proxied resolve encode u) us) {y = (c ∷ s) ∷ []} (rw other refl)
        ∙ (ap (λ r. r ∷ []) good
            ∙ sym (ap (λ us. map (λ p. ok p) us) (line_references-link out (first out good))))
  ]

  both_ok :
      (r : Result E Bytes) (rs : Result E (List Bytes)) (l : List Bytes)
      → (r >>= (λ out. rs >>= (λ outs. ok (out ∷ outs)))) ≡ ok l
      → (out : Bytes) × ((outs : List Bytes) × ((r ≡ ok out) × ((rs ≡ ok outs) × (l ≡ out ∷ outs))))
  both_ok (ok out) (ok outs) l h = (out, (outs, (refl, (refl, ground arith))))
  both_ok (ok out) (err e) l h = ground arith
  both_ok (err e) rs l h = ground arith

  -- Where the references of the source's lines become links, the lines of a rewritten playlist refer
  -- to exactly what `Resolve` and `encode` make of those references, in order.
  pub rewrite_lines_links :
      (ls outs : List Bytes)
      → All IsLinked (references (map (λ l. trim_right b'\r' l) ls))
      → rewrite_lines resolve encode ls ≡ ok outs
      → map (λ u. proxied resolve encode u) (references (map (λ l. trim_right b'\r' l) ls))
        ≡ map (λ p. ok p) (references outs)
  unfolding rewrite_lines references rewrite_line
  rewrite_lines_links [] outs links h =
      ap (λ os. map (λ p. ok p) (references os)) (oks_injective [] outs h)
  rewrite_lines_links (l ∷ ls) outs links h =
      let (out, (rest, (first, (others, whole)))) =
        both_ok (rewrite_line resolve encode l) (rewrite_lines resolve encode ls) outs h in
      let t = trim_right b'\r' l in
      let (here, later) = All-split IsLinked (line_references t) _ links in
      map-append (λ u. proxied resolve encode u) (line_references t) _
      ∙ (rw (trimmed_links t out here first, rewrite_lines_links ls rest later others)
            (sym (map-append (λ p. ok p) (line_references out) (references rest)))
          ∙ sym (ap (λ o. map (λ p. ok p) (references o)) whole))
