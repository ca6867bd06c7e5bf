-- ===== src/Examples/PullRuns.antt =====
-- Pulls of gateway/internal/hlspull/hlspull.go from small playlists; a URL is a number.
use psychic_computing_machin.Common.{
  ℕ, suc, ◌+◌, ◌-◌, ◌*◌, ◌≡◌, refl, true, false, Option, none, some, [], ◌∷◌, drop, eqb, nat_eq,
  list_eq, ok, err, arith,
}
use psychic_computing_machin.Common.Text.{Bytes, ascii, index, split, trim_space, trim_prefix}
use psychic_computing_machin.Common.Word.{zero_word, max_word, parse_word}
use psychic_computing_machin.Remux.{second}
use psychic_computing_machin.Hlspull.{
  Media, unavailable, copied, Round, Pull, new_pull, stops, panicked, last_word, rejoin, after_copy,
  loaded_round, pull_rounds, load_media, resolve_variant,
}
use psychic_computing_machin.Hlspull.Window.{copy_all}
use psychic_computing_machin.Hlspull.Bounds.{
  IsNumbered, none_left, fails, is_stopped, loaded_round-copy_all, pull_gives_up,
}

abbrev parse_digit : Bytes → Option ℕ
parse_digit line = elim line [ [] ↦ none | c ∷ s ↦ some c ]

-- A sequence number too large for int64 is read as the greatest one.
abbrev greatest : Media ℕ
greatest = record {
  target = some (6 * second);
  seq = max_word;
  segments = b'a' ∷ [];
  ended = false;
}

huge_number :
    load_media parse_digit (ascii "#EXTM3U\n#EXT-X-MEDIA-SEQUENCE:99999999999999999999\na.ts\n")
    ≡ ok greatest
unfolding load_media index split trim_space trim_prefix parse_word
huge_number = refl

best_variant :
    resolve_variant parse_digit 0
      (ascii "#EXT-X-STREAM-INF:BANDWIDTH=5\na\n#EXT-X-STREAM-INF:BANDWIDTH=9\nb\n")
    ≡ some b'b'
unfolding resolve_variant index split trim_space parse_word
best_variant = refl

abbrev greatest_round : Round ℕ
greatest_round = record {
  loaded = ok greatest;
  load_cancelled = false;
  copy = λ u. copied;
  sleep_cancelled = false;
}

-- After the segment with that number the index is out of range.
greatest_panics :
    loaded_round greatest_round greatest new_pull
    ≡ stops panicked (record { next = 0; failures = 0; written = b'a' ∷ [] })
unfolding loaded_round
greatest_panics = refl

greatest-IsNumbered : IsNumbered greatest
greatest-IsNumbered = record {
  nonnegative = omega arith;
  nonempty = omega arith;
  fits = omega arith;
  in_word = omega arith;
}

abbrev fresh : Pull ℕ
fresh = new_pull

loaded_round-copy_all_example :
    loaded_round greatest_round greatest fresh
    ≡ after_copy greatest false (
        copy_all greatest_round.copy
          (eqb (last_word greatest) max_word)
          (drop (rejoin greatest fresh.next - greatest.seq) greatest.segments)
          (record fresh { failures = 0; next = rejoin greatest fresh.next }))
loaded_round-copy_all_example =
    loaded_round-copy_all greatest_round greatest fresh greatest-IsNumbered

abbrev lost : Round ℕ
lost = record {
  loaded = err unavailable;
  load_cancelled = false;
  copy = λ u. copied;
  sleep_cancelled = false;
}

pull_gives_up_example :
    is_stopped (pull_rounds (lost ∷ lost ∷ lost ∷ lost ∷ lost ∷ []) new_pull) ≡ true
pull_gives_up_example =
    pull_gives_up (lost ∷ lost ∷ lost ∷ lost ∷ lost ∷ []) new_pull
      (fails unavailable refl (
        fails unavailable refl
          (fails unavailable refl (fails unavailable refl (fails unavailable refl none_left)))))
      (omega arith) (omega arith)

abbrev first_number : ℕ
first_number = zero_word + 8

abbrev published : ℕ → ℕ
published n = n

abbrev two : Media ℕ
two = record {
  target = some second;
  seq = first_number;
  segments = first_number ∷ suc first_number ∷ [];
  ended = false;
}

abbrev two_round : Round ℕ
two_round = record lost { loaded = ok two }

abbrev waiting : Pull ℕ
waiting = record { next = suc first_number; failures = 0; written = first_number ∷ [] }
