-- ===== src/Common/Word.antt =====
-- Go's int64 with its wrap-around: a value is the number that exceeds it by 2 ^ 63, so that the
-- order of int64 is the order of these words, which are below 2 ^ 64.
use Prim.Native.Nat.{ℕ, ◌+◌, ◌-◌, ◌*◌, ◌%◌, ◌^◌}
use mathlib.Core.Option.{Option, none, some}
use mathlib.Core.List.{[], ◌∷◌}
use psychic_computing_machin.Common.Tests.{ltb, eqb, if◌then◌else◌}
use psychic_computing_machin.Common.Text.{Bytes}
use psychic_computing_machin.Common.Decimal.{is_digit}

abbrev pub modulus : ℕ
modulus = 2 ^ 64

abbrev pub zero_word : ℕ
zero_word = 2 ^ 63

abbrev pub minus_one : ℕ
minus_one = 2 ^ 63 - 1

abbrev pub max_word : ℕ
max_word = 2 ^ 64 - 1

unfoldable pub add_word : ℕ → ℕ → ℕ
add_word w n = (w + n) % modulus

unfoldable pub sub_word : ℕ → ℕ → ℕ
sub_word w n = (w + modulus - n) % modulus

-- An index `a - b` into a slice: a negative one is far out of range.
unfoldable pub index_word : ℕ → ℕ → ℕ
index_word a b = (a + modulus - b) % modulus

-- The digits of strconv.ParseUint: none at a byte that is no digit, and 2 ^ 64 as soon as the value
-- leaves 64 bits.
unfoldable pub scan_uint : ℕ → Bytes → Option ℕ
unfolding is_digit
scan_uint n [] = some n
scan_uint n (c ∷ s) =
    let next = n * 10 + (c - b'0') in
    let rest = scan_uint next s in
    if is_digit c then (if ltb next modulus then rest else some modulus) else none

unfoldable pub scan_number : Bytes → Option ℕ
unfolding scan_uint
scan_number [] = none
scan_number (c ∷ s) = scan_uint 0 (c ∷ s)

abbrev pub clamp_pos : Option ℕ → ℕ
clamp_pos none = zero_word
clamp_pos (some n) = if ltb n zero_word then zero_word + n else max_word

abbrev pub clamp_neg : Option ℕ → ℕ
clamp_neg none = zero_word
clamp_neg (some n) = zero_word - n

-- The value of strconv.ParseInt(s, 10, 64) whatever its error: 0 where the syntax is wrong, and the
-- nearest value where it is out of range.
unfoldable pub parse_word : Bytes → ℕ
unfolding scan_number
parse_word [] = zero_word
parse_word (c ∷ s) =
    if eqb c b'-'
    then clamp_neg (scan_number s)
    else if eqb c b'+'
    then clamp_pos (scan_number s)
    else clamp_pos (scan_number (c ∷ s))
