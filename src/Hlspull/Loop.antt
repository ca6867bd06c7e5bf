-- ===== src/Hlspull/Loop.antt =====
-- The loop of gateway/internal/hlspull/hlspull.go that copies segments: `run`, `copySegment` and
-- `looksLikeTS`. What happens outside, a load and the copying of a segment, is given by a `Round`.
use psychic_computing_machin.Common.{
  ℕ, zero, suc, ◌+◌, ◌*◌, ◌/◌, Bool, true, false, ◌&&◌, ◌||◌, not, Option, none, some, List, [],
  ◌∷◌, ◌++◌, length, take, drop, get_elem?, ltb, leb, eqb, if◌then◌else◌, Result, ok, err,
}
use psychic_computing_machin.Common.Text.{Bytes}
use psychic_computing_machin.Common.Word.{add_word, sub_word, index_word, zero_word, minus_one}
use psychic_computing_machin.Remux.{second}
use psychic_computing_machin.Hlspull.Playlist.{
  Media, LoadError, encrypted, fragmented, unexpected_master, bad_uri, line_too_long, no_segments,
  unavailable,
}

abbrev pub max_failures : ℕ
max_failures = 5

abbrev pub live_edge_window : ℕ
live_edge_window = 3

-- The sync bytes of the packets after the first.
unfoldable pub synced_packets : ℕ → Bytes → Bool
synced_packets zero b = true
synced_packets (suc n) b = elim (get_elem? (drop 188 b) 0) [
  | none ↦ true
  | some c ↦ eqb c 71 && synced_packets n (drop 188 b)
]

abbrev pub starts_packet : Bytes → Bool
starts_packet [] = false
starts_packet (c ∷ s) = eqb c 71

-- The head has three packets and a byte at most, so that four steps are enough.
unfoldable pub looks_like_ts : Bytes → Bool
unfolding synced_packets
looks_like_ts b = not (ltb (length b) 188) && (starts_packet b && synced_packets 4 b)

-- How a segment ends: copied, without the sync bytes, with another error, or with the context
-- cancelled.
pub data Copied : Type 0 where
  copied not_ts missed aborted : Copied

pub data PullEnd : Type 0 where
  refused : LoadError → PullEnd
  gave_up ended_not_ts cancelled finished panicked out_of_fuel : PullEnd

-- One round of the loop: the playlist or why there is none, whether the context is cancelled when
-- that error is looked at, how each segment fares, and whether the sleep is cut short.
pub record Round (Url : Type 0) : Type 0 where
  pub loaded : Result LoadError (Media Url)
  pub load_cancelled : Bool
  pub copy : Url → Copied
  pub sleep_cancelled : Bool

-- The writer holds what was written, in order.
pub record Pull (Url : Type 0) : Type 0 where
  pub next : ℕ
  pub failures : ℕ
  pub written : List Url

pub data Step (Url : Type 0) : Type 0 where
  goes : Pull Url → Step Url
  stops : PullEnd → Pull Url → Step Url

abbrev pub is_fatal : LoadError → Bool
is_fatal encrypted = true
is_fatal fragmented = true
is_fatal unexpected_master = false
is_fatal bad_uri = false
is_fatal line_too_long = false
is_fatal no_segments = false
is_fatal unavailable = false

abbrev pub max_of : ℕ → ℕ → ℕ
max_of a b = if ltb a b then b else a

-- How the body of an answer ends: as announced, before its announced length, which is
-- io.ErrUnexpectedEOF, or with another error.
pub data BodyEnd : Type 0 where
  complete truncated broken : BodyEnd

-- What the source answers for a segment: nothing, or a status, the body that arrives, and how it
-- ends. A part that was written before an error is not recorded.
pub data Segment : Type 0 where
  no_segment : Segment
  segment : ℕ → Bytes → BodyEnd → Segment

abbrev pub failed_copy : Bool → Copied
failed_copy context_cancelled = if context_cancelled then aborted else missed

abbrev pub head_size : ℕ
head_size = 188 * 3 + 1

-- Whether io.ReadFull on the head fails otherwise than with io.ErrUnexpectedEOF; it hands on the
-- body's own error, and io.EOF where nothing was read.
unfoldable pub head_cut : Bytes → BodyEnd → Bool
head_cut [] complete = true
head_cut [] truncated = false
head_cut [] broken = true
head_cut (b ∷ body) complete = false
head_cut (b ∷ body) truncated = false
head_cut (b ∷ body) broken = ltb (length (b ∷ body)) head_size

-- io.Copy of the rest.
abbrev pub copy_rest : Bool → BodyEnd → Copied
copy_rest context_cancelled complete = copied
copy_rest context_cancelled truncated = failed_copy context_cancelled
copy_rest context_cancelled broken = failed_copy context_cancelled

unfoldable pub copy_segment : Bool → Segment → Copied
unfolding looks_like_ts head_cut
copy_segment context_cancelled no_segment = failed_copy context_cancelled
copy_segment context_cancelled (segment status body end) =
    if leb 400 status || head_cut body end
    then failed_copy context_cancelled
    else if not (looks_like_ts (take head_size body))
    then not_ts
    else copy_rest context_cancelled end

module _ {Url : Type 0} where
  abbrev pub new_pull : Pull Url
  new_pull = record { next = minus_one; failures = 0; written = [] }

  -- The last sequence number of a playlist, which has a segment.
  unfoldable pub last_word : Media Url → ℕ
  unfolding add_word sub_word
  last_word m = sub_word (add_word m.seq (length m.segments)) 1

  -- The number to go on from: the old one, or near the live edge.
  unfoldable pub rejoin : Media Url → ℕ → ℕ
  unfolding last_word
  rejoin m next =
      let last = last_word m in
      if ltb next zero_word || (ltb (add_word last 1) next || ltb next m.seq)
      then max_of (add_word (sub_word last live_edge_window) 1) m.seq
      else next

  -- The loop over the segments from `p.next` to `last`.
  unfoldable pub copy_from : (Url → Copied) → Media Url → ℕ → ℕ → Pull Url → Step Url
  unfolding index_word add_word
  copy_from copy m last zero p = stops out_of_fuel p
  copy_from copy m last (suc fuel) p = elim (leb p.next last) [
    | false ↦ goes p
    | true ↦ elim (get_elem? m.segments (index_word p.next m.seq)) [
      | none ↦ stops panicked p
      | some u ↦ elim (copy u) [
        | copied ↦
            copy_from copy m last fuel
              (record p { next = add_word p.next 1; written = p.written ++ (u ∷ []) })
        | missed ↦ copy_from copy m last fuel (record p { next = add_word p.next 1 })
        | not_ts ↦ stops ended_not_ts p
        | aborted ↦ stops cancelled p
      ]
    ]
  ]

  -- The end of a round: the end of the stream, or the wait for the next.
  unfoldable pub after_copy : Media Url → Bool → Step Url → Step Url
  after_copy m sleep_cancelled (stops e p) = stops e p
  after_copy m sleep_cancelled (goes p) =
      if m.ended then stops finished p else if sleep_cancelled then stops cancelled p else goes p

  unfoldable pub failed_round : LoadError → Bool → Bool → Pull Url → Step Url
  failed_round e load_cancelled sleep_cancelled p =
      if is_fatal e || load_cancelled
      then stops (refused e) p
      else if leb max_failures (p.failures + 1)
      then stops gave_up (record p { failures = p.failures + 1 })
      else if sleep_cancelled
      then stops cancelled (record p { failures = p.failures + 1 })
      else goes (record p { failures = p.failures + 1 })

  unfoldable pub loaded_round : Round Url → Media Url → Pull Url → Step Url
  unfolding copy_from rejoin after_copy
  loaded_round r m p = after_copy m r.sleep_cancelled (
      copy_from r.copy m (last_word m) (length m.segments + 2)
        (record p { failures = 0; next = rejoin m p.next }))

  abbrev pub round_of : Round Url → Pull Url → Result LoadError (Media Url) → Step Url
  round_of r p (err e) = failed_round e r.load_cancelled r.sleep_cancelled p
  round_of r p (ok m) = loaded_round r m p

  unfoldable pub pull_round : Round Url → Pull Url → Step Url
  unfolding failed_round loaded_round
  pull_round r p = round_of r p r.loaded

  -- The loop over the rounds that take place.
  unfoldable pub pull_rounds : List (Round Url) → Pull Url → Step Url
  unfolding pull_round
  pull_rounds [] p = goes p
  pull_rounds (r ∷ rs) p = elim (pull_round r p) [
    | goes p' ↦ pull_rounds rs p'
    | stops e p' ↦ stops e p'
  ]

-- The wait between two rounds, in nanoseconds.
unfoldable pub round_wait : Option ℕ → ℕ
round_wait none = second
round_wait (some target) = if ltb (target / 2) second then second else target / 2
