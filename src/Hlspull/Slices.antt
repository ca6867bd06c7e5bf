-- ===== src/Hlspull/Slices.antt =====
-- The segments of a live source, from which the playlists that gateway/internal/hlspull/hlspull.go
-- loads are windows.
use psychic_computing_machin.Common.{
  ℕ, zero, suc, ◌+◌, ◌-◌, ◌≤◌, ◌≡◌, refl, ap, ◌∙◌, List, [], ◌∷◌, ◌++◌, arith, length, drop,
}

module _ {Url : Type 0} (source : ℕ → Url) where
  -- The segments numbered from `a` on.
  unfoldable pub slice : ℕ → ℕ → List Url
  slice a zero = []
  slice a (suc n) = source a ∷ slice (suc a) n

  pub length-slice : (a n : ℕ) → length (slice a n) ≡ n
  unfolding slice
  length-slice a zero = refl
  length-slice a (suc n) = ap suc (length-slice (suc a) n)

  pub slice_at : (a b m n : ℕ) → a ≡ b → m ≡ n → slice a m ≡ slice b n
  slice_at a b m n e f = ap (λ x. slice x m) e ∙ ap (λ k. slice b k) f

  pub drop-slice : (k a n : ℕ) → k ≤ n → drop k (slice a n) ≡ slice (a + k) (n - k)
  unfolding slice
  drop-slice zero a n h = slice_at a (a + 0) n (n - 0) (omega arith) (omega arith)
  drop-slice (suc k) a zero h = absurd (omega arith)
  drop-slice (suc k) a (suc n) h =
      drop-slice k (suc a) n (omega arith)
      ∙ slice_at (suc a + k) (a + suc k) (n - k) (suc n - suc k) (omega arith) (omega arith)

  pub slice-append : (a m n : ℕ) → slice a m ++ slice (a + m) n ≡ slice a (m + n)
  unfolding slice
  slice-append a zero n = slice_at (a + 0) a n (0 + n) (omega arith) (omega arith)
  slice-append a (suc m) n =
      ap (λ l. source a ∷ l)
        (ap (λ l. slice (suc a) m ++ l) (slice_at (a + suc m) (suc a + m) n n (omega arith) refl)
          ∙ slice-append (suc a) m n)
      ∙ slice_at a a (suc (m + n)) (suc m + n) refl (omega arith)
