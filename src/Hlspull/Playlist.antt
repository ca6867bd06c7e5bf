-- ===== src/Hlspull/Playlist.antt =====
-- The playlists that gateway/internal/hlspull/hlspull.go reads: `resolveVariant`, `attrInt` and
-- `loadMedia`. `parse` is `base.Parse`; sequence numbers and bandwidths are words of int64.
use psychic_computing_machin.Common.{
  ℕ, ◌+◌, ◌*◌, Bool, true, false, ◌&&◌, not, Option, none, some, List, [], ◌∷◌, ◌++◌, length, take,
  drop, ltb, eqb, if◌then◌else◌, ◌==◌, nat_eq, list_eq, Result, ok, err, ◌>>=◌,
}
use psychic_computing_machin.Common.Text.{
  Bytes, ascii, has_prefix, trim_prefix, trim_space, index, contains_text, split,
}
use psychic_computing_machin.Common.Decimal.{ℤ, pos, negsuc, parse_int}
use psychic_computing_machin.Common.Word.{zero_word, minus_one, parse_word}
use psychic_computing_machin.Remux.{second}
use psychic_computing_machin.Node.{scan_lines, seconds}

abbrev pub max_playlist : ℕ
max_playlist = 4 * 1024 * 1024

abbrev pub max_line : ℕ
max_line = 1024 * 1024

-- The lines before the first that overflows the scanner's buffer, and whether there is such a line.
unfoldable pub fitting_lines : List Bytes → List Bytes × Bool
fitting_lines [] = ([], false)
fitting_lines (l ∷ ls) =
    let (rest, long) = fitting_lines ls in
    if ltb (length l) max_line then (trim_space l ∷ rest, long) else ([], true)

unfoldable pub read_lines : Bytes → List Bytes × Bool
unfolding fitting_lines scan_lines
read_lines body = fitting_lines (scan_lines (split b'\n' (take max_playlist body)))

unfoldable pub trim_quotes_left : Bytes → Bytes
trim_quotes_left [] = []
trim_quotes_left (c ∷ s) = let rest = trim_quotes_left s in if eqb c b'"' then rest else c ∷ s

unfoldable pub trim_quotes_right : Bytes → Bytes
trim_quotes_right [] = []
trim_quotes_right (c ∷ s) = elim (trim_quotes_right s) [
  | [] ↦ if eqb c b'"' then [] else c ∷ []
  | d ∷ r ↦ c ∷ d ∷ r
]

unfoldable pub attr_int : Bytes → Bytes → ℕ
unfolding trim_quotes_left trim_quotes_right
attr_int line key = elim (index line (key ++ ascii "=")) [
  | none ↦ zero_word
  | some i ↦
      let v = drop (i + length key + 1) line in
      let value : Bytes = elim (index v (ascii ",")) [ none ↦ v | some j ↦ take j v ] in
      parse_word (trim_quotes_right (trim_quotes_left value))
]

abbrev pub is_uri : Bytes → Bool
is_uri line = not (eqb (length line) 0) && not (has_prefix line (ascii "#"))

module _ {Url : Type 0} (parse : Bytes → Option Url) where
  -- The state of the loop of `resolveVariant`; no pending bandwidth is its -2.
  pub record Variants : Type 0 where
    pub best : Option Url
    pub best_bandwidth : ℕ
    pub pending : Option ℕ
    pub is_master : Bool

  unfoldable pub take_variant : Bytes → Variants → Variants
  take_variant line v = elim v.pending [
    | none ↦ v
    | some bandwidth ↦ elim (parse line) [
      | none ↦ record v { pending = none }
      | some u ↦
          if ltb v.best_bandwidth bandwidth
          then record v { best = some u; best_bandwidth = bandwidth; pending = none }
          else record v { pending = none }
    ]
  ]

  unfoldable pub variant_line : Bytes → Variants → Variants
  unfolding take_variant attr_int
  variant_line line v =
      if has_prefix line (ascii "#EXT-X-STREAM-INF:")
      then record v { is_master = true; pending = some (attr_int line (ascii "BANDWIDTH")) }
      else if is_uri line && v.is_master
      then take_variant line v
      else v

  unfoldable pub variant_lines : List Bytes → Variants → Variants
  unfolding variant_line
  variant_lines [] v = v
  variant_lines (l ∷ ls) v = variant_lines ls (variant_line l v)

  abbrev pub no_variants : Variants
  no_variants = record {
    best = none;
    best_bandwidth = minus_one;
    pending = some minus_one;
    is_master = false;
  }

  -- The media playlist: `base` itself, or the best variant; none is the error.
  unfoldable pub resolve_variant : Url → Bytes → Option Url
  unfolding variant_lines read_lines
  resolve_variant base body =
      let v = variant_lines (read_lines body).0 no_variants in
      if v.is_master then v.best else some base

pub record Media (Url : Type 0) : Type 0 where
  pub target : Option ℕ  -- in nanoseconds; none where the duration is negative
  pub seq : ℕ
  pub segments : List Url
  pub ended : Bool

pub data LoadError : Type 0 where
  encrypted fragmented unexpected_master bad_uri line_too_long no_segments unavailable : LoadError

abbrev pub target_of : Option ℕ → Option ℤ → Option ℕ
target_of old none = old
target_of old (some (negsuc n)) = old
target_of old (some (pos n)) = if eqb n 0 then old else seconds (pos n)

module _ {Url : Type 0} (parse : Bytes → Option Url) where
  unfoldable pub media_line : Bytes → Media Url → Result LoadError (Media Url)
  media_line line m =
      if has_prefix line (ascii "#EXT-X-TARGETDURATION:")
      then ok (record m {
        target = target_of m.target (parse_int (trim_prefix line (ascii "#EXT-X-TARGETDURATION:")));
      })
      else if has_prefix line (ascii "#EXT-X-MEDIA-SEQUENCE:")
      then ok (record m { seq = parse_word (trim_prefix line (ascii "#EXT-X-MEDIA-SEQUENCE:")) })
      else if has_prefix line (ascii "#EXT-X-KEY:")
      then if contains_text line (ascii "METHOD=NONE") then ok m else err encrypted
      else if has_prefix line (ascii "#EXT-X-MAP:")
      then err fragmented
      else if line == ascii "#EXT-X-ENDLIST"
      then ok (record m { ended = true })
      else if has_prefix line (ascii "#EXT-X-STREAM-INF:")
      then err unexpected_master
      else if is_uri line
      then elim (parse line) [
        | none ↦ err bad_uri
        | some u ↦ ok (record m { segments = m.segments ++ (u ∷ []) })
      ]
      else ok m

  unfoldable pub media_lines : List Bytes → Media Url → Result LoadError (Media Url)
  unfolding media_line
  media_lines [] m = ok m
  media_lines (l ∷ ls) m = media_line l m >>= (λ m'. media_lines ls m')

  abbrev pub no_media : Media Url
  no_media = record { target = some (6 * second); seq = zero_word; segments = []; ended = false }

  unfoldable pub load_media : Bytes → Result LoadError (Media Url)
  unfolding media_lines read_lines
  load_media body =
      let (lines, long) = read_lines body in
      media_lines lines no_media >>= (λ m.
        if long
        then err line_too_long
        else if eqb (length m.segments) 0
        then err no_segments
        else ok m)
