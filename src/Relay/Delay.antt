-- ===== src/Relay/Delay.antt =====
-- The waits of `fail` of gateway/internal/gatewayhttp/alwayson.go for every number of failures.
use psychic_computing_machin.Common.{
  and_split, ℕ, zero, suc, ◌+◌, ◌-◌, ◌*◌, ◌%◌, ◌^◌, ◌≤◌, ◌<◌, ◌≡◌, refl, sym, subst, ◌∙◌, Bool,
  true, ◌&&◌, ltb, leb, eqb, arith, if◌then◌else◌, ◌⊎◌, inl, inr, ◌||◌, eqb_iff,
}
use native.Mathlib.Nat.{two-pow-succ}
use psychic_computing_machin.Relay.{min_backoff, max_backoff, shifted, backoff}

-- The wait that the source means: 30 seconds, doubled up to 10 minutes.
unfoldable pub doubled : ℕ → ℕ
doubled k = if leb k 4 then min_backoff * 2 ^ k else max_backoff

unfoldable agrees : ℕ → Bool
unfolding backoff doubled shifted
agrees k = eqb (backoff (suc k)) (doubled k)

unfoldable agrees_below : ℕ → Bool
unfolding agrees
agrees_below zero = true
agrees_below (suc n) = agrees n && agrees_below n

agrees_first : agrees_below 30 ≡ true
unfolding agrees_below agrees backoff shifted doubled
agrees_first = refl

below_split : (n k : ℕ) → k < suc n → (k ≡ n) ⊎ (k < n)
below_split n k h = omega arith

agrees_below-agrees : (n k : ℕ) → agrees_below n ≡ true → k < n → agrees k ≡ true
unfolding agrees_below
agrees_below-agrees zero k h lt = ground arith
agrees_below-agrees (suc n) k h lt =
    let both = and_split (agrees n) (agrees_below n) h in
    elim (below_split n k lt) [
      | inl here ↦ subst (λ i. agrees i ≡ true) (sym here) both.0
      | inr rest ↦ agrees_below-agrees n k both.1 rest
    ]

doubled_bounds : (k : ℕ) → (min_backoff ≤ doubled k) × (doubled k ≤ max_backoff)
unfolding doubled
doubled_bounds zero = ground arith
doubled_bounds (suc zero) = ground arith
doubled_bounds (suc (suc zero)) = ground arith
doubled_bounds (suc (suc (suc zero))) = ground arith
doubled_bounds (suc (suc (suc (suc zero)))) = ground arith
doubled_bounds (suc (suc (suc (suc (suc k))))) = ground arith

doubled-large : (j : ℕ) → doubled (30 + j) ≡ max_backoff
unfolding doubled
doubled-large j = ground arith

two-pow-add : (j : ℕ) → 2 ^ (30 + j) ≡ 1073741824 * 2 ^ j
two-pow-add zero = refl
two-pow-add (suc j) = grind (arith, two-pow-succ j, two-pow-succ (30 + j), two-pow-add j)

large_cases :
    (x n : ℕ)
    → n ≡ 1099511627776 * x
    → (n % 18446744073709551616 ≡ 0) ⊎ (600000000000 < n % 18446744073709551616)
large_cases x n h = omega arith

ltb_max : (b n : ℕ) → (b ≡ 0) ⊎ (n < b) → (eqb b 0 || ltb n b) ≡ true
ltb_max b n h = ground arith

shifted_large : (j : ℕ) → (shifted (30 + j) ≡ 0) ⊎ (max_backoff < shifted (30 + j))
unfolding shifted
shifted_large j = large_cases (29296875 * 2 ^ j) _ (omega (arith, two-pow-add j))

backoff-first : (k : ℕ) → k < 30 → backoff (suc k) ≡ doubled k
unfolding agrees
backoff-first k h = (eqb_iff _ _).0 (agrees_below-agrees 30 k agrees_first h)

backoff-large : (j : ℕ) → backoff (suc (30 + j)) ≡ max_backoff
unfolding backoff
backoff-large j = ground (arith, shifted_large j)

-- After k + 1 failures in a row, whatever k is, the wait is 30 seconds times 2 ^ k for k up to 4, and
-- 10 minutes from then on, although the shift overflows.
pub backoff-doubled : (k : ℕ) → backoff (suc k) ≡ doubled k
unfolding doubled
backoff-doubled k = elim (small_or_large k) [
  | inl small ↦ backoff-first k small
  | inr (j, same) ↦
      subst (λ i. backoff (suc i) ≡ doubled i) (sym same) (backoff-large j ∙ sym (doubled-large j))
]
  where
    small_or_large : (k : ℕ) → (k < 30) ⊎ ((j : ℕ) × (k ≡ 30 + j))
    small_or_large k = elim (below k) [ inl a ↦ inl a | inr b ↦ inr (k - 30, b) ]
      where
        below : (k : ℕ) → (k < 30) ⊎ (k ≡ 30 + (k - 30))
        below k = omega arith

pub backoff_bounds : (k : ℕ) → (min_backoff ≤ backoff (suc k)) × (backoff (suc k) ≤ max_backoff)
backoff_bounds k =
    subst (λ w. (min_backoff ≤ w) × (w ≤ max_backoff)) (sym (backoff-doubled k)) (doubled_bounds k)
