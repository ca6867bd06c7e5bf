-- ===== src/Hlspull/Bounds.antt =====
-- One round of `run` in gateway/internal/hlspull/hlspull.go, wherever the source's numbers lie.
use psychic_computing_machin.Common.{
  ℕ, suc, ◌+◌, ◌-◌, ◌%◌, ◌≤◌, ◌<◌, ◌≡◌, refl, ap, subst, Bool, true, false, ◌||◌, List, [], ◌∷◌,
  arith, length, drop, ltb, leb, eqb, if_keeps, err,
}
use psychic_computing_machin.Common.Word.{add_word, sub_word, zero_word, max_word, modulus}
use psychic_computing_machin.Hlspull.{
  Media, LoadError, Round, Pull, Step, goes, stops, last_word, rejoin, max_of, after_copy,
  loaded_round, failed_round, pull_round, pull_rounds, round_of, is_fatal, max_failures,
  live_edge_window,
}
use psychic_computing_machin.Hlspull.Window.{copy_all, copy_from-copy_all, length-drop}

-- A playlist with a segment whose numbers are not negative and fit into int64.
pub record IsNumbered {Url : Type 0} (m : Media Url) : Type 0 where
  pub nonnegative : zero_word ≤ m.seq
  pub nonempty : 0 < length m.segments
  pub fits : m.seq + length m.segments ≤ modulus
  pub in_word : m.seq < modulus

last_number :
    (seq len : ℕ) → 0 < len → seq + len ≤ modulus → sub_word (add_word seq len) 1 + 1 ≡ seq + len
unfolding sub_word add_word
last_number seq len a b = omega arith

kept_bounds :
    (seq last next : ℕ)
    → (ltb next zero_word || (ltb (add_word last 1) next || ltb next seq)) ≡ false
    → last < modulus
    → (seq ≤ next) × ((next ≤ suc last) × (next < modulus))
unfolding add_word
kept_bounds seq last next h w = ground arith

moved_bounds :
    (seq last : ℕ)
    → zero_word ≤ seq
    → seq ≤ last
    → last < modulus
    → (seq ≤ max_of (add_word (sub_word last live_edge_window) 1) seq)
      × ((max_of (add_word (sub_word last live_edge_window) 1) seq ≤ suc last)
          × (max_of (add_word (sub_word last live_edge_window) 1) seq < modulus))
unfolding add_word sub_word
moved_bounds seq last a b w = ground arith

at_start : (seq start : ℕ) → seq ≤ start → start < modulus → start ≡ (seq + (start - seq)) % modulus
at_start seq start a b = omega arith

module _ {Url : Type 0} where
  pub last_word-number :
      (m : Media Url) → IsNumbered m → last_word m + 1 ≡ m.seq + length m.segments
  unfolding last_word
  last_word-number m h = last_number m.seq (length m.segments) h.nonempty h.fits

  pub rejoin_bounds :
      (m : Media Url) (next : ℕ)
      → IsNumbered m
      → (m.seq ≤ rejoin m next)
        × ((rejoin m next ≤ m.seq + length m.segments) × (rejoin m next < modulus))
  unfolding rejoin
  rejoin_bounds m next h =
      let last = last_word-number m h in
      if_keeps (λ n. (m.seq ≤ n) × ((n ≤ m.seq + length m.segments) × (n < modulus)))
        (ltb next zero_word || (ltb (add_word (last_word m) 1) next || ltb next m.seq))
        (λ _.
          let (low, (high, word)) =
            moved_bounds m.seq (last_word m) h.nonnegative (omega (arith, h.nonempty))
              (omega (arith, h.fits)) in
          (low, (omega arith, word)))
        (λ kept.
          let (low, (high, word)) =
            kept_bounds m.seq (last_word m) next kept (omega (arith, h.fits)) in
          (low, (omega arith, word)))

  -- Where a playlist's numbers are not negative and fit into int64, one round copies in turn the
  -- segments from its starting point to the last one, never one outside the list and never one
  -- twice; it fails by an index out of range exactly where it gets past a segment whose number is
  -- the greatest int64. The loop's fuel is never used up.
  pub loaded_round-copy_all :
      (r : Round Url) (m : Media Url) (p : Pull Url)
      → IsNumbered m
      → loaded_round r m p
        ≡ after_copy m r.sleep_cancelled (
            copy_all r.copy
              (eqb (last_word m) max_word)
              (drop (rejoin m p.next - m.seq) m.segments)
              (record p { failures = 0; next = rejoin m p.next }))
  unfolding loaded_round
  loaded_round-copy_all r m p h =
      let last = last_word-number m h in
      let (low, (high, word)) = rejoin_bounds m p.next h in
      let k = rejoin m p.next - m.seq in
      let start : Pull Url = record p { failures = 0; next = rejoin m p.next } in
      ap (λ s. after_copy m r.sleep_cancelled s)
        (copy_from-copy_all r.copy m (last_word m) k (length m.segments + 2) (drop k m.segments)
          start h.in_word (omega arith) (omega (arith, h.fits))
          (omega (arith, h.fits, h.nonnegative)) (at_start m.seq (rejoin m p.next) low word) refl
          (omega arith) (omega (arith, length-drop k m.segments)))

  -- Rounds without a playlist.
  pub data IsFailing : List (Round Url) → Type 0 where
    none_left : IsFailing []
    fails :
        {r : Round Url} {rs : List (Round Url)} (e : LoadError)
        → r.loaded ≡ err e
        → IsFailing rs
        → IsFailing (r ∷ rs)

  abbrev pub is_stopped : Step Url → Bool
  is_stopped (goes p) = false
  is_stopped (stops e p) = true

  goes_injective : (p q : Pull Url) → goes p ≡ goes q → p ≡ q
  goes_injective p q h = ap puller h
    where
      puller : Step Url → Pull Url
      puller (goes r) = r
      puller (stops e r) = r

  stopped_after :
      (r : Round Url) (rs : List (Round Url)) (p : Pull Url) (s : Step Url)
      → pull_round r p ≡ s
      → ((p' : Pull Url) → s ≡ goes p' → is_stopped (pull_rounds rs p') ≡ true)
      → is_stopped (pull_rounds (r ∷ rs) p) ≡ true
  unfolding pull_rounds
  stopped_after r rs p (goes p') e h = rw (pull_rounds, e) (h p' refl)
  stopped_after r rs p (stops x p') e h = rw (pull_rounds, e) refl

  -- Rounds without a playlist end the pull, at the latest with the fifth in a row.
  pub pull_gives_up :
      (rs : List (Round Url)) (p : Pull Url)
      → IsFailing rs
      → 0 < length rs
      → max_failures ≤ p.failures + length rs
      → is_stopped (pull_rounds rs p) ≡ true
  unfolding pull_rounds pull_round failed_round
  pull_gives_up [] p none_left a b = absurd (omega arith)
  pull_gives_up (r ∷ rs) p (fails e h rest) a b =
      stopped_after r rs p (failed_round e r.load_cancelled r.sleep_cancelled p)
        (ap (λ l. round_of r p l) h)
        (if_keeps Q (is_fatal e || r.load_cancelled) (λ _ p' x. ground arith)
          (λ _.
            if_keeps Q (leb max_failures (p.failures + 1)) (λ _ p' x. ground arith)
              (λ few.
                if_keeps Q r.sleep_cancelled (λ _ p' x. ground arith)
                  (λ _ p' x.
                    let (some_left, enough) = left p (length rs) few b in
                    again p' x (
                      pull_gives_up rs (record p { failures = p.failures + 1 }) rest some_left
                        enough)))))
    where
      Q : Step Url → Type 0
      Q s = (p' : Pull Url) → s ≡ goes p' → is_stopped (pull_rounds rs p') ≡ true

      left :
          (p : Pull Url) (n : ℕ)
          → leb max_failures (p.failures + 1) ≡ false
          → max_failures ≤ p.failures + suc n
          → (0 < n) × (max_failures ≤ p.failures + 1 + n)
      left p n few b = ground arith

      again :
          (p' : Pull Url)
          → goes (record p { failures = p.failures + 1 }) ≡ goes p'
          → is_stopped (pull_rounds rs (record p { failures = p.failures + 1 })) ≡ true
          → is_stopped (pull_rounds rs p') ≡ true
      again p' same h =
          subst (λ q. is_stopped (pull_rounds rs q) ≡ true) (goes_injective _ p' same) h
