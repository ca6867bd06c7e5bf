-- ===== src/Remux/Paths.antt =====
-- Which files a request can reach through gateway/internal/remux/remux.go, and what the sniffing of
-- MPEG-TS accepts.
use psychic_computing_machin.Common.{
  ℕ, zero, suc, ◌+◌, ◌≤◌, ◌<◌, ◌≡◌, ◌↔◌, refl, true, inl, inr, Option, none, some, [], ◌∷◌, ◌++◌,
  arith, nat_eq, list_eq, same_list_iff, Option-cases, Bool-cases, All, length, get_elem?,
}
use native.Mathlib.Decide.{ℕ_discrete}
use psychic_computing_machin.Common.Text.{Bytes, ascii}
use psychic_computing_machin.Common.Map.{lookup}
use psychic_computing_machin.Remux.{
  IsDigit, digits_then, is_segment_name, exposed_name, IsSegmentName, sync_byte, is_sync, synced,
  scan_packets, looks_like_mpegts, Manager, get_path,
}
use psychic_computing_machin.Remux.Registry.{IsRegistry}

-- `n` digits and then `rest`.
abbrev DigitsThen : ℕ → Bytes → Bytes → Type 0
DigitsThen n rest s = (ds : Bytes) × (length ds ≡ n) × All IsDigit ds × (s ≡ ds ++ rest)

digits_then_sound : (n : ℕ) (rest s : Bytes) → digits_then n rest s ≡ true → DigitsThen n rest s
unfolding digits_then
digits_then_sound zero rest s h = ([], refl, tt, (same_list_iff s rest).0 h)
digits_then_sound (suc n) rest [] h = cc
digits_then_sound (suc n) rest (c ∷ s) h =
    let (ds, count, digits, spelled) = digits_then_sound n rest s (ground arith) in
    (c ∷ ds, ground arith, (ground arith, digits), ground arith)

digits_then_complete :
    (n : ℕ) (rest ds : Bytes)
    → length ds ≡ n
    → All IsDigit ds
    → digits_then n rest (ds ++ rest) ≡ true
unfolding digits_then
digits_then_complete zero rest [] e h = (same_list_iff rest rest).1 refl
digits_then_complete zero rest (c ∷ ds) e h = absurd (omega arith)
digits_then_complete (suc n) rest [] e h = absurd (omega arith)
digits_then_complete (suc n) rest (c ∷ ds) e (d, h) =
    ground (arith, digits_then_complete n rest ds (omega arith) h)

-- The segment test accepts exactly the names made of `seg`, six digits and `.ts`.
pub is_segment_name_iff : (name : Bytes) → (is_segment_name name ≡ true) ↔ IsSegmentName name
unfolding is_segment_name
is_segment_name_iff name = (sound name, λ h. complete name h)
  where
    sound : (s : Bytes) → is_segment_name s ≡ true → IsSegmentName s
    sound [] h = cc
    sound (a ∷ []) h = cc
    sound (a ∷ b ∷ []) h = cc
    sound (a ∷ b ∷ c ∷ rest) h =
        let (ds, count, digits, spelled) = digits_then_sound 6 (ascii ".ts") rest (ground arith) in
        record { digits = ds; six = count; all_digits = digits; spelled = ground arith }

    complete : (s : Bytes) → IsSegmentName s → is_segment_name s ≡ true
    complete s h = rw h.spelled (digits_then_complete 6 (ascii ".ts") h.digits h.six h.all_digits)

-- In a manager whose maps agree, a request gets a path only for a playlist or segment name, in the
-- directory of the present session of the very stream it asks for, whose identifier it knows.
pub get_path_confined :
    (now s : ℕ) (id name dir file : Bytes) (m : Manager)
    → IsRegistry m
    → (get_path now s id name m).1 ≡ some (dir, file)
    → (file ≡ name)
      × (exposed_name name ≡ true)
      × (p : ℕ) × (lookup s m.sessions ≡ some p)
      × ((m.heap p).id ≡ id)
      × ((m.heap p).dir ≡ dir)
unfolding get_path
get_path_confined now s id name dir file m h e = elim (Option-cases (lookup id m.by_id)) [
  | inl f ↦ absurd (ground (arith, f))
  | inr (p, f) ↦
      let named = h.named id p f in
      (
        ground (arith, f),
        ground (arith, f),
        p,
        ground (arith, f, named),
        named.0,
        ground (arith, f),
      )
]

-- The offset of a packet whose sync byte is followed by two more, a packet apart.
pub record IsPacketStart (b : Bytes) (off : ℕ) : Type 0 where
  pub early : off < 188
  pub here : get_elem? b off ≡ some sync_byte
  pub next : get_elem? b (off + 188) ≡ some sync_byte
  pub third : get_elem? b (off + 376) ≡ some sync_byte

lt-length_of_get : (b : Bytes) (i : ℕ) {x : ℕ} → get_elem? b i ≡ some x → i < length b
lt-length_of_get [] i h = cc
lt-length_of_get (c ∷ b) zero h = omega arith
lt-length_of_get (c ∷ b) (suc i) h = omega (arith, lt-length_of_get b i h)

is_sync_iff : (o : Option ℕ) → (is_sync o ≡ true) ↔ (o ≡ some sync_byte)
is_sync_iff none = ground arith
is_sync_iff (some x) = ground arith

scan_packets_sound :
    (n off : ℕ) (b : Bytes)
    → off + n ≤ 188
    → scan_packets n off b ≡ true
    → (o : ℕ) × IsPacketStart b o
unfolding scan_packets
scan_packets_sound zero off b fits h = cc
scan_packets_sound (suc n) off b fits h = elim (Bool-cases (synced b off)) [
  | inl e ↦ (off, start e)
  | inr e ↦ scan_packets_sound n (suc off) b (omega arith) (ground (arith, e))
]
  where
    start : synced b off ≡ true → IsPacketStart b off
    start e = ground (
      arith,
      is_sync_iff (get_elem? b off),
      is_sync_iff (get_elem? b (off + 188)),
      is_sync_iff (get_elem? b (off + 376)),
    )

scan_packets_complete :
    (n off o : ℕ) (b : Bytes)
    → IsPacketStart b o
    → off ≤ o
    → o < off + n
    → scan_packets n off b ≡ true
unfolding scan_packets
scan_packets_complete zero off o b s low high = absurd (omega arith)
scan_packets_complete (suc n) off o b s low high = elim (ℕ_discrete off o) [
  | yes e ↦ ground (arith, lt-length_of_get b (o + 376) s.third)
  | no d ↦ ground (
    arith,
    lt-length_of_get b (o + 376) s.third,
    scan_packets_complete n (suc off) o b s (omega arith) (omega arith),
  )
]

-- The body of a source is taken for MPEG-TS exactly if at one of its first 188 offsets there is a
-- sync byte with another one after one and after two packets of 188 bytes.
pub looks_like_mpegts_iff :
    (b : Bytes) → (looks_like_mpegts b ≡ true) ↔ ((o : ℕ) × IsPacketStart b o)
unfolding looks_like_mpegts
looks_like_mpegts_iff b = (
  scan_packets_sound 188 0 b (omega arith),
  λ (o, s). scan_packets_complete 188 0 o b s (omega arith) (omega (arith, s.early)),
)
