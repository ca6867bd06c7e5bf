-- ===== src/Hls/References.antt =====
-- The references of an HLS playlist, and when gateway/internal/hls/rewrite.go rewrites it.
use psychic_computing_machin.Common.{
  ◌≡◌, refl, Bool, true, false, ◌&&◌, Option, none, some, List, [], ◌∷◌, ◌++◌, map, arith,
  if◌then◌else◌, Result, ok, err, not, eqb, contains, nat_eq, ◌>>=◌, ◌∙◌,
}
use psychic_computing_machin.Common.Text.{Bytes, ascii, has_prefix, split, trim_right}
use psychic_computing_machin.Hls.{
  Piece, plain, uri, cut_uris, proxied, replace_uris, rewrite_line, rewrite_lines, rewrite_playlist,
}

-- The URIs among the pieces of a tag line.
unfoldable pub uris : List Piece → List Bytes
uris [] = []
uris (plain c ∷ ps) = uris ps
uris (uri u ∷ ps) = u ∷ uris ps

-- What a player fetches for one line without its carriage return.
unfoldable pub line_references : Bytes → List Bytes
unfolding uris
line_references [] = []
line_references (c ∷ s) =
    if has_prefix (c ∷ s) (ascii "#") then uris (cut_uris 0 (c ∷ s)) else (c ∷ s) ∷ []

unfoldable pub references : List Bytes → List Bytes
unfolding line_references
references [] = []
references (l ∷ ls) = line_references l ++ references ls

unfoldable pub source_lines : Bytes → List Bytes
source_lines text = map (λ l. trim_right b'\r' l) (split b'\n' text)

-- A link that stands in a playlist as it is: it begins with a slash, and holds no quote or newline.
unfoldable pub is_link : Bytes → Bool
is_link [] = false
is_link (c ∷ s) = eqb c b'/' && (not (contains b'"' s) && not (contains b'\n' s))

abbrev pub is_ok {ℓ κ} : {E : Type ℓ} {A : Type κ} → Result E A → Bool
is_ok (ok a) = true
is_ok (err e) = false

module _ {ℓ} {E : Type ℓ} {Url : Type 0} (resolve : Bytes → Result E Url)
    (encode : Url → Result E Bytes) where
  unfoldable pub all_proxied : List Bytes → Bool
  all_proxied [] = true
  all_proxied (u ∷ us) = is_ok (proxied resolve encode u) && all_proxied us

  all_proxied-append :
      (us vs : List Bytes) → all_proxied (us ++ vs) ≡ (all_proxied us && all_proxied vs)
  unfolding all_proxied
  all_proxied-append [] vs = refl
  all_proxied-append (u ∷ us) vs = ground (arith, all_proxied-append us vs)

  abbrev is_none : Option E → Bool
  is_none none = true
  is_none (some e) = false

  replace_uris-all_proxied :
      (ps : List Piece) → is_none (replace_uris resolve encode ps).1 ≡ all_proxied (uris ps)
  unfolding replace_uris uris all_proxied
  replace_uris-all_proxied [] = refl
  replace_uris-all_proxied (plain c ∷ ps) = replace_uris-all_proxied ps
  replace_uris-all_proxied (uri u ∷ ps) = ground (arith, replace_uris-all_proxied ps)

  rewrite_line-is_ok :
      (l : Bytes)
      → is_ok (rewrite_line resolve encode l) ≡ all_proxied (line_references (trim_right b'\r' l))
  unfolding rewrite_line line_references all_proxied
  rewrite_line-is_ok l = ground (arith, replace_uris-all_proxied (cut_uris 0 (trim_right b'\r' l)))

  both-is_ok :
      (r : Result E Bytes) (rs : Result E (List Bytes))
      → is_ok (r >>= (λ out. rs >>= (λ outs. ok (out ∷ outs)))) ≡ (is_ok r && is_ok rs)
  both-is_ok (ok out) (ok outs) = refl
  both-is_ok (ok out) (err e) = refl
  both-is_ok (err e) rs = refl

  rewrite_lines-is_ok :
      (ls : List Bytes)
      → is_ok (rewrite_lines resolve encode ls)
        ≡ all_proxied (references (map (λ l. trim_right b'\r' l) ls))
  unfolding rewrite_lines references all_proxied
  rewrite_lines-is_ok [] = refl
  rewrite_lines-is_ok (l ∷ ls) =
      both-is_ok (rewrite_line resolve encode l) (rewrite_lines resolve encode ls)
      ∙ rw (
        rewrite_line-is_ok l,
        rewrite_lines-is_ok ls,
        all_proxied-append (line_references (trim_right b'\r' l))
            (references (map (λ l. trim_right b'\r' l) ls)),
      )

  -- A playlist is rewritten exactly when every reference of it, on lines of their own and in the URI
  -- attributes of its tags, resolves and encodes; otherwise the whole rewriting fails.
  pub rewrite_playlist-is_ok :
      (text : Bytes)
      → is_ok (rewrite_playlist resolve encode text) ≡ all_proxied (references (source_lines text))
  unfolding rewrite_playlist source_lines
  rewrite_playlist-is_ok text = ground (arith, rewrite_lines-is_ok (split b'\n' text))
