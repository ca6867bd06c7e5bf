-- ===== src/Hls/Rewrite.antt =====
-- gateway/internal/hls/rewrite.go: every URI of an HLS playlist is replaced by a gateway link.
-- `Resolve` and the caller's `encode` are parameters.
use psychic_computing_machin.Common.{
  ℕ, zero, suc, ◌+◌, Bool, true, false, ◌&&◌, Option, none, some, List, [], ◌∷◌, ◌++◌, drop, length,
  eqb, if◌then◌else◌, Result, ok, err, ◌>>=◌,
}
use psychic_computing_machin.Common.Text.{
  Bytes, ascii, has_prefix, split, join, trim_right, trim_space,
}

-- The mark of UTF-8 before the text.
unfoldable pub trim_bom : Bytes → Bytes
trim_bom (a ∷ b ∷ c ∷ s) = if eqb a 239 && (eqb b 187 && eqb c 191) then s else a ∷ b ∷ c ∷ s
trim_bom s = s

unfoldable pub is_playlist : Bytes → Bool
unfolding trim_bom trim_space
is_playlist body = has_prefix (trim_space (trim_bom body)) (ascii "#EXTM3U")

-- A line cut at the matches of `URI="([^"]*)"`: a byte outside them, or the text in quotes.
pub data Piece : Type 0 where
  plain : ℕ → Piece
  uri : Bytes → Piece

abbrev pub uri_open : Bytes
uri_open = ascii "URI=\""

-- The text before the next quote.
unfoldable pub until_quote : Bytes → Option Bytes
until_quote [] = none
until_quote (c ∷ s) = elim (until_quote s) [
  | none ↦ if eqb c b'"' then some [] else none
  | some u ↦ if eqb c b'"' then some [] else some (c ∷ u)
]

-- Leftmost matches that do not overlap: the first number counts the bytes of a match still to pass.
unfoldable pub cut_uris : ℕ → Bytes → List Piece
unfolding until_quote
cut_uris skip [] = []
cut_uris (suc skip) (c ∷ s) = cut_uris skip s
cut_uris zero (c ∷ s) = elim (has_prefix (c ∷ s) uri_open) [
  | false ↦ plain c ∷ cut_uris zero s
  | true ↦ elim (until_quote (drop 5 (c ∷ s))) [
    | none ↦ plain c ∷ cut_uris zero s
    | some u ↦ uri u ∷ cut_uris (length u + 5) s
  ]
]

-- A URI attribute and the text after it.
abbrev pub quoted : Bytes → Bytes → Bytes
quoted u rest = uri_open ++ (u ++ (b'"' ∷ rest))

-- The callback on one match, with what is made of the rest of the line.
unfoldable pub replace_match {ℓ} :
    {E : Type ℓ} → Bytes → Result E Bytes → Bytes × Option E → Bytes × Option E
replace_match u (ok p) (text, outer) = (quoted p text, outer)
replace_match u (err e) (text, none) = (quoted u text, some e)
replace_match u (err e) (text, some later) = (quoted u text, some later)

module _ {ℓ} {E : Type ℓ} {Url : Type 0} (resolve : Bytes → Result E Url)
    (encode : Url → Result E Bytes) where
  unfoldable pub proxied : Bytes → Result E Bytes
  proxied raw = resolve raw >>= (λ target. encode target)

  -- The replaced text, and `outerErr`: the error of the last match that failed.
  unfoldable pub replace_uris : List Piece → Bytes × Option E
  unfolding proxied replace_match
  replace_uris [] = ([], none)
  replace_uris (plain c ∷ ps) = let (text, outer) = replace_uris ps in (c ∷ text, outer)
  replace_uris (uri u ∷ ps) = replace_match u (proxied u) (replace_uris ps)

  unfoldable pub rewrite_tag_attrs : Bytes → Result E Bytes
  unfolding replace_uris cut_uris
  rewrite_tag_attrs line =
      let (text, outer) = replace_uris (cut_uris 0 line) in
      elim outer [ none ↦ ok text | some e ↦ err e ]

  -- The cases of the loop's `switch` on a line without its carriage return.
  unfoldable pub rewrite_trimmed : Bytes → Result E Bytes
  unfolding rewrite_tag_attrs proxied
  rewrite_trimmed [] = ok []
  rewrite_trimmed (c ∷ s) =
      if has_prefix (c ∷ s) (ascii "#") then rewrite_tag_attrs (c ∷ s) else proxied (c ∷ s)

  unfoldable pub rewrite_line : Bytes → Result E Bytes
  unfolding rewrite_trimmed
  rewrite_line line = rewrite_trimmed (trim_right b'\r' line)

  unfoldable pub rewrite_lines : List Bytes → Result E (List Bytes)
  unfolding rewrite_line
  rewrite_lines [] = ok []
  rewrite_lines (l ∷ ls) =
      rewrite_line l >>= (λ out. rewrite_lines ls >>= (λ outs. ok (out ∷ outs)))

  unfoldable pub rewrite_playlist : Bytes → Result E Bytes
  unfolding rewrite_lines
  rewrite_playlist text = rewrite_lines (split b'\n' text) >>= (λ outs. ok (join b'\n' outs))
