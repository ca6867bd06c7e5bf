-- ===== src/Hlspull/Window.antt =====
-- The copying loop of gateway/internal/hlspull/hlspull.go against a walk over the rest of the list.
use psychic_computing_machin.Common.{
  ℕ, zero, suc, ◌+◌, ◌-◌, ◌≤◌, ◌<◌, ◌≡◌, refl, ap, ◌∙◌, Bool, true, false, none, some, List, [],
  ◌∷◌, ◌++◌, inl, inr, arith, length, ◌%◌, drop, get_elem?, leb, eqb, eqb_iff, if◌then◌else◌,
  Bool-cases,
}
use psychic_computing_machin.Common.Word.{add_word, index_word, max_word, modulus}
use psychic_computing_machin.Hlspull.{
  Media, Copied, copied, not_ts, missed, aborted, panicked, ended_not_ts, cancelled, Pull, Step,
  goes, stops, copy_from,
}

index_within : (seq k : ℕ) → seq < modulus → k < modulus → index_word ((seq + k) % modulus) seq ≡ k
unfolding index_word
index_within seq k g h = omega arith

-- Before the last segment the counter has not wrapped.
not_past :
    (seq k len last : ℕ)
    → seq + len ≡ suc last
    → last ≤ max_word
    → k < len
    → leb ((seq + k) % modulus) last ≡ true
not_past seq k len last a b h = ground arith

past : (next last : ℕ) → next ≡ suc last → last < max_word → leb (next % modulus) last ≡ false
past next last a b = ground arith

wrapped : (last : ℕ) → last ≡ max_word → leb (suc last % modulus) last ≡ true
wrapped last h = ground arith

below_max : (last : ℕ) → last ≤ max_word → eqb last max_word ≡ false → last < max_word
below_max last a h = ground arith

next_word : (seq k : ℕ) → add_word ((seq + k) % modulus) 1 ≡ (seq + suc k) % modulus
unfolding add_word
next_word seq k = omega arith

module _ {Url : Type 0} where
  -- The segments in turn. After the last one the program fails where the counter has wrapped.
  unfoldable pub copy_all : (Url → Copied) → Bool → List Url → Pull Url → Step Url
  copy_all copy wraps [] p = if wraps then stops panicked p else goes p
  copy_all copy wraps (u ∷ us) p = elim (copy u) [
    | copied ↦
        copy_all copy wraps us
          (record p { next = add_word p.next 1; written = p.written ++ (u ∷ []) })
    | missed ↦ copy_all copy wraps us (record p { next = add_word p.next 1 })
    | not_ts ↦ stops ended_not_ts p
    | aborted ↦ stops cancelled p
  ]

  get_elem?-drop :
      (k : ℕ) (xs rest : List Url) (x : Url)
      → drop k xs ≡ x ∷ rest
      → (get_elem? xs k ≡ some x) × (drop (suc k) xs ≡ rest)
  get_elem?-drop zero [] rest x h = ground arith
  get_elem?-drop zero (y ∷ ys) rest x h = ground arith
  get_elem?-drop (suc k) [] rest x h = ground arith
  get_elem?-drop (suc k) (y ∷ ys) rest x h = get_elem?-drop k ys rest x h

  get_elem?-end : (k : ℕ) (xs : List Url) → length xs ≤ k → get_elem? xs k ≡ none
  get_elem?-end k [] h = refl
  get_elem?-end zero (y ∷ ys) h = absurd (omega arith)
  get_elem?-end (suc k) (y ∷ ys) h = get_elem?-end k ys (omega arith)

  pub length-drop : (k : ℕ) (xs : List Url) → length (drop k xs) ≡ length xs - k
  length-drop zero xs = omega arith
  length-drop (suc k) [] = omega arith
  length-drop (suc k) (x ∷ xs) = omega (arith, length-drop k xs)

  ended : (k : ℕ) (xs : List Url) → drop k xs ≡ [] → k ≤ length xs → k ≡ length xs
  ended k xs e f =
      let none_left : length (drop k xs) ≡ 0 = ap (λ l. length l) e in
      omega (arith, length-drop k xs)

  within :
      (k : ℕ) (xs : List Url) (u : Url) (rest : List Url) → drop k xs ≡ u ∷ rest → k < length xs
  within k xs u rest e =
      let some_left : length (drop k xs) ≡ suc (length rest) = ap (λ l. length l) e in
      omega (arith, length-drop k xs)

  pub copy_from-copy_all :
      (copy : Url → Copied) (m : Media Url) (last k fuel : ℕ) (rest : List Url) (p : Pull Url)
      → m.seq < modulus
      → m.seq + length m.segments ≡ suc last
      → last ≤ max_word
      → length m.segments < modulus
      → p.next ≡ (m.seq + k) % modulus
      → drop k m.segments ≡ rest
      → k ≤ length m.segments
      → length rest + 1 < fuel
      → copy_from copy m last fuel p ≡ copy_all copy (eqb last max_word) rest p
  unfolding copy_from copy_all
  copy_from-copy_all copy m last k zero rest p w a b c d e f g = absurd (omega arith)
  copy_from-copy_all copy m last k (suc fuel) [] p w a b c d e f g =
      let full : k ≡ length m.segments = ended k m.segments e f in
      let at : p.next ≡ suc last % modulus = d ∙ ap (λ n. n % modulus) (omega arith) in
      elim (Bool-cases (eqb last max_word)) [
        | inl top ↦
            let here : leb p.next last ≡ true =
              ap (λ n. leb n last) at ∙ wrapped last ((eqb_iff last max_word).0 top) in
            let index : index_word p.next m.seq ≡ k =
              ap (λ n. index_word n m.seq) d ∙ index_within m.seq k (omega arith) (omega arith) in
            let out : get_elem? m.segments (index_word p.next m.seq) ≡ none =
              get_elem?-end (index_word p.next m.seq) m.segments (omega arith) in
            rw (copy_from, here, out, top) refl
        | inr below ↦
            let here : leb p.next last ≡ false =
              ap (λ n. leb n last) at ∙ past (suc last) last refl (below_max last b below) in
            rw (copy_from, here, below) refl
      ]
  copy_from-copy_all copy m last k (suc fuel) (u ∷ rest) p w a b c d e f g =
      let (found, tail) = get_elem?-drop k m.segments rest u e in
      let inside : k < length m.segments = within k m.segments u rest e in
      let here : leb p.next last ≡ true =
        ap (λ n. leb n last) d ∙ not_past m.seq k (length m.segments) last a b inside in
      let index : index_word p.next m.seq ≡ k =
        ap (λ n. index_word n m.seq) d ∙ index_within m.seq k (omega arith) (omega arith) in
      let at : get_elem? m.segments (index_word p.next m.seq) ≡ some u =
        ap (λ i. get_elem? m.segments i) index ∙ found in
      let further : add_word p.next 1 ≡ (m.seq + suc k) % modulus =
        ap (λ n. add_word n 1) d ∙ next_word m.seq k in
      rw (copy_from, here, at)
        (ground (
          arith,
          copy_from-copy_all copy m last (suc k) fuel rest
              (record p { next = add_word p.next 1; written = p.written ++ (u ∷ []) }) w a b c
              further tail (omega arith) (omega arith),
          copy_from-copy_all copy m last (suc k) fuel rest (record p { next = add_word p.next 1 }) w
              a b c further tail (omega arith) (omega arith),
        ))
