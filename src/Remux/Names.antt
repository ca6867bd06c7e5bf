-- ===== src/Remux/Names.antt =====
-- The file names that a remux session exposes, and the sniffing of MPEG-TS, of
-- gateway/internal/remux/remux.go.
use psychic_computing_machin.Common.{
  ℕ, zero, suc, ◌+◌, ◌≤◌, ◌≡◌, Bool, true, false, ◌&&◌, ◌||◌, Option, none, some, [], ◌∷◌, ◌++◌,
  leb, ltb, eqb, if◌then◌else◌, ◌==◌, nat_eq, list_eq, length, get_elem?, All,
}
use psychic_computing_machin.Common.Text.{Bytes, ascii}

abbrev pub IsDigit : ℕ → Type 0
IsDigit c = (b'0' ≤ c) × (c ≤ b'9')

unfoldable pub is_digit : ℕ → Bool
is_digit c = leb b'0' c && leb c b'9'

-- `count` digits, then exactly `rest`.
unfoldable pub digits_then : ℕ → Bytes → Bytes → Bool
unfolding is_digit
digits_then zero rest s = s == rest
digits_then (suc n) rest [] = false
digits_then (suc n) rest (c ∷ s) = is_digit c && digits_then n rest s

-- The regular expression `^seg[0-9]{6}\.ts$`.
unfoldable pub is_segment_name : Bytes → Bool
unfolding digits_then
is_segment_name (s ∷ e ∷ g ∷ rest) =
    eqb s b's' && (eqb e b'e' && (eqb g b'g' && digits_then 6 (ascii ".ts") rest))
is_segment_name _ = false

unfoldable pub exposed_name : Bytes → Bool
unfolding is_segment_name
exposed_name name = (name == ascii "index.m3u8") || is_segment_name name

-- What the expression says, independently: six digits between `seg` and `.ts`.
pub record IsSegmentName (name : Bytes) : Type 0 where
  pub digits : Bytes
  pub six : length digits ≡ 6
  pub all_digits : All IsDigit digits
  pub spelled : name ≡ ascii "seg" ++ (digits ++ ascii ".ts")

abbrev pub sync_byte : ℕ
sync_byte = 71

abbrev pub is_sync : Option ℕ → Bool
is_sync none = false
is_sync (some b) = eqb b sync_byte

-- The test on three packets.
abbrev pub synced : Bytes → ℕ → Bool
synced b off =
    is_sync (get_elem? b off)
    && (is_sync (get_elem? b (off + 188)) && is_sync (get_elem? b (off + 376)))

-- The loop of `LooksLikeMPEGTS` with `n` offsets left: those from `off` on.
unfoldable pub scan_packets : ℕ → ℕ → Bytes → Bool
scan_packets zero off b = false
scan_packets (suc n) off b =
    let rest = scan_packets n (suc off) b in
    if ltb (off + 376) (length b) then if synced b off then true else rest else false

unfoldable pub looks_like_mpegts : Bytes → Bool
unfolding scan_packets
looks_like_mpegts b = scan_packets 188 0 b
