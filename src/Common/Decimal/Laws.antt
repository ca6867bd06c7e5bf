-- ===== src/Common/Decimal/Laws.antt =====
-- A printed integer reads back, and its digits hold no other byte.
use psychic_computing_machin.Common.Tests.{eqb, Bool-cases, if_keeps}
use Prim.Native.Nat.{ℕ, zero, suc, ◌+◌, ◌/◌, ◌%◌, ◌≤◌, ◌<◌}
use mathlib.Core.Path.{◌≡◌, sym, ap, subst}
use mathlib.Core.Logic.{◌≢◌, inl, inr}
use mathlib.Core.Option.{some}
use mathlib.Core.List.{[], ◌∷◌}
use native.Mathlib.Omega.{arith}
use psychic_computing_machin.Common.Lists.{All}
use psychic_computing_machin.Common.Text.{Bytes}
use psychic_computing_machin.Common.Decimal.Digits.{
  ℤ, pos, negsuc, is_digit, read_digits, write_digits, format_nat, format_int,
}

abbrev pub IsDecimal : Bytes → Type 0
IsDecimal = All (λ c. (b'0' ≤ c) × (c ≤ b'9'))

-- Reading the last digit of `n` behind the others gives `n`.
read_last_digit :
    (n : ℕ) (out : Bytes) → read_digits (n / 10) ((b'0' + n % 10) ∷ out) ≡ read_digits n out
unfolding read_digits is_digit
read_last_digit n out = ground arith

read-write_digits :
    (fuel n : ℕ) (out : Bytes)
    → n < fuel
    → read_digits 0 (write_digits fuel n out) ≡ read_digits n out
unfolding write_digits
read-write_digits zero n out h = absurd (omega arith)
read-write_digits (suc fuel) n out h = elim (Bool-cases (eqb (n / 10) 0)) [
  | inl e ↦ ground (arith, e, read_last_digit n out)
  | inr e ↦ ground (
    arith,
    e,
    read_last_digit n out,
    read-write_digits fuel (n / 10) ((b'0' + n % 10) ∷ out) (ground arith),
  )
]

write_digits-IsDecimal :
    (fuel n : ℕ) (out : Bytes) → IsDecimal out → IsDecimal (write_digits fuel n out)
unfolding write_digits
write_digits-IsDecimal zero n out h = h
write_digits-IsDecimal (suc fuel) n out h =
    if_keeps IsDecimal (eqb (n / 10) 0) (λ _. (omega arith, h))
      (λ _. write_digits-IsDecimal fuel (n / 10) _ (omega arith, h))

pub format_nat-IsDecimal : (n : ℕ) → IsDecimal (format_nat n)
unfolding format_nat
format_nat-IsDecimal n = write_digits-IsDecimal (suc n) n [] tt

read_digits-format_nat : (n : ℕ) → read_digits 0 (format_nat n) ≡ some n
unfolding format_nat read_digits
read_digits-format_nat n = read-write_digits (suc n) n [] (omega arith)

pub format_nat-injective : (m n : ℕ) → format_nat m ≡ format_nat n → m ≡ n
format_nat-injective m n e = cc (read_digits-format_nat m, read_digits-format_nat n)

-- No print of a natural number begins with a sign.
unsigned : (n : ℕ) (s : Bytes) → format_nat n ≢ b'-' ∷ s
unsigned n s e = absurd (omega (arith, (subst IsDecimal e (format_nat-IsDecimal n)).0))

digits_lack : (s : Bytes) (b : ℕ) → b'9' < b → IsDecimal s → All (λ c. c ≢ b) s
digits_lack [] b h d = tt
digits_lack (c ∷ s) b h (d, ds) = (omega arith, digits_lack s b h ds)

pub format_int-injective : (a b : ℤ) → format_int a ≡ format_int b → a ≡ b
unfolding format_int
format_int-injective (pos m) (pos n) e = ap pos (format_nat-injective m n e)
format_int-injective (pos m) (negsuc n) e = absurd (unsigned m _ e)
format_int-injective (negsuc m) (pos n) e = absurd (unsigned n _ (sym e))
format_int-injective (negsuc m) (negsuc n) e =
    ap negsuc (omega (arith, format_nat-injective (suc m) (suc n) (cc)))

-- The byte is neither a digit nor the sign.
pub format_int-lacks : (a : ℤ) (b : ℕ) → b ≢ b'-' → b'9' < b → All (λ c. c ≢ b) (format_int a)
unfolding format_int
format_int-lacks (pos n) b d h = digits_lack (format_nat n) b h (format_nat-IsDecimal n)
format_int-lacks (negsuc n) b d h =
    ((λ e. d (sym e)), digits_lack (format_nat (suc n)) b h (format_nat-IsDecimal (suc n)))
