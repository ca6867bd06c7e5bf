-- ===== src/Leakcheck/Evidence.antt =====
-- What a finding of gateway/internal/leakcheck/matcher.go rests on, and what it keeps of a token.
use psychic_computing_machin.Common.{
  some_injective, ◌≡◌, refl, sym, ap, subst, ◌∙◌, true, not, ◌⊎◌, inl, inr, Option, none, some,
  List, [], ◌∷◌, arith, same_list_iff, ◌==◌, nat_eq, list_eq, if_keeps, option_keeps, ◌++◌, ◌≤◌,
  length, take, drop, length-take, take-append-drop,
}
use psychic_computing_machin.Common.Text.{Bytes, ascii, contains_text}
use psychic_computing_machin.Leakcheck.{
  KnownToken, AccessPointInfo, confirmed, Match, anchor, candidate_token_after, find_known,
  redacted, classify_private, classify,
}

-- The text holds the anchor, followed somewhere by a candidate whose hash is the stored hash of one
-- of the access point's own tokens, and the finding names that token.
pub record IsLeaked (hash : Bytes → Bytes) (info : AccessPointInfo) (base_url text : Bytes)
    (m : Match) : Type 0 where
  pub candidate : Bytes
  pub known : KnownToken
  pub present : candidate_token_after (anchor base_url info) text ≡ some candidate
  pub before : List KnownToken
  pub after : List KnownToken
  pub own : info.tokens ≡ before ++ (known ∷ after)
  pub hashed : known.hash ≡ hash candidate
  pub named : m.token_id ≡ some known.id

find_known-hash :
    (hash : Bytes) (ts : List KnownToken) (t : KnownToken)
    → find_known hash ts ≡ some t
    → t.hash ≡ hash
unfolding find_known
find_known-hash hash [] t = λ h. ground arith
find_known-hash hash (s ∷ ts) t =
    if_keeps (λ r. r ≡ some t → t.hash ≡ hash) (s.hash == hash)
      (λ same h. ap (λ x. x.hash) (sym (some_injective s t h)) ∙ (same_list_iff s.hash hash).0 same)
      (λ _ h. find_known-hash hash ts t h)

-- What is found stands in the list.
find_known-split :
    (hash : Bytes) (ts : List KnownToken) (t : KnownToken)
    → find_known hash ts ≡ some t
    → (before : List KnownToken) × ((after : List KnownToken) × (ts ≡ before ++ (t ∷ after)))
unfolding find_known
find_known-split hash [] t = λ h. ground arith
find_known-split hash (s ∷ ts) t =
    if_keeps Q (s.hash == hash) (λ _ h. ([], (ts, ap (λ x. x ∷ ts) (some_injective s t h))))
      (λ _ h.
        let (before, (after, e)) = find_known-split hash ts t h in
        (s ∷ before, (after, ap (λ l. s ∷ l) e)))
  where
    Q : Option KnownToken → Type 0
    Q r =
        r ≡ some t
        → (before : List KnownToken) × ((after : List KnownToken) × (s ∷ ts
              ≡ before ++ (t ∷ after)))

private_confirmed :
    (hash : Bytes → Bytes) (info : AccessPointInfo) (base_url text : Bytes) (o : Option Bytes)
    → candidate_token_after (anchor base_url info) text ≡ o
    → (classify_private hash info (anchor base_url info) o).confidence ≡ confirmed
    → IsLeaked hash info base_url text (classify_private hash info (anchor base_url info) o)
unfolding classify_private
private_confirmed hash info base_url text none e = λ c. ground arith
private_confirmed hash info base_url text (some candidate) e =
    option_keeps Q (find_known (hash candidate) info.tokens) (λ _ c. ground arith)
      (λ t found c.
        let (before, (after, own)) = find_known-split (hash candidate) info.tokens t found in
        record {
          candidate = candidate;
          known = t;
          present = e;
          before = before;
          after = after;
          own = own;
          hashed = find_known-hash (hash candidate) info.tokens t found;
          named = refl;
        })
  where
    Q : Match → Type 0
    Q m = m.confidence ≡ confirmed → IsLeaked hash info base_url text m

-- The anchor, and a note that quotes at most twelve leading digits of a hash.
pub record IsNote (anchor hash value : Bytes) : Type 0 where
  pub digits : Bytes
  pub rest : Bytes
  pub quoted : value ≡ anchor ++ (ascii "/<redacted token, hash " ++ (digits ++ ascii ">"))
  pub few : length digits ≤ 12
  pub leading : hash ≡ digits ++ rest

redacted-IsNote : (a hash : Bytes) → IsNote a hash (redacted a hash)
unfolding redacted
redacted-IsNote a hash = record {
  digits = take 12 hash;
  rest = drop 12 hash;
  quoted = refl;
  few = length-take 12 hash;
  leading = sym (take-append-drop 12 hash);
}

-- The matched text of a finding: the anchor, or a note on a candidate that follows it in the text.
abbrev pub IsRedacted : (Bytes → Bytes) → Bytes → Bytes → Bytes → Type 0
IsRedacted hash a text value =
    (value ≡ a)
    ⊎ ((candidate : Bytes) × ((candidate_token_after a text ≡ some candidate)
          × IsNote a (hash candidate) value))

private-IsRedacted :
    (hash : Bytes → Bytes) (info : AccessPointInfo) (a text : Bytes) (o : Option Bytes)
    → candidate_token_after a text ≡ o
    → IsRedacted hash a text (classify_private hash info a o).matched_value
unfolding classify_private
private-IsRedacted hash info a text none e = inl refl
private-IsRedacted hash info a text (some candidate) e =
    option_keeps (λ (m : Match). IsRedacted hash a text m.matched_value)
      (find_known (hash candidate) info.tokens)
      (λ _. inr (candidate, (e, redacted-IsNote a (hash candidate))))
      (λ t _. inr (candidate, (e, redacted-IsNote a (hash candidate))))

-- A finding about a private access point is confirmed only if what follows the anchor in the text
-- has the hash that is stored for one of that access point's tokens, and the finding names the
-- token.
pub classify_confirmed :
    (hash : Bytes → Bytes) (info : AccessPointInfo) (base_url text : Bytes) (m : Match)
    → (info.visibility == ascii "private") ≡ true
    → classify hash info base_url text ≡ some m
    → m.confidence ≡ confirmed
    → IsLeaked hash info base_url text m
unfolding classify
classify_confirmed hash info base_url text m private =
    if_keeps Q (not (contains_text text (anchor base_url info))) (λ _ h. ground arith)
      (λ _.
        if_keeps Q (not (info.visibility == ascii "private")) (λ public h. ground arith)
          (λ _ h c.
            let same = some_injective _ m h in
            subst (λ x. IsLeaked hash info base_url text x) same
              (private_confirmed hash info base_url text
                (candidate_token_after (anchor base_url info) text) refl
                (ap (λ x. x.confidence) same ∙ c))))
  where
    Q : Option Match → Type 0
    Q r = r ≡ some m → m.confidence ≡ confirmed → IsLeaked hash info base_url text m

-- The matched text that a finding stores is the anchor, or the anchor with a fixed note that quotes
-- at most the first twelve digits of the hash of the candidate after it.
pub classify-IsRedacted :
    (hash : Bytes → Bytes) (info : AccessPointInfo) (base_url text : Bytes) (m : Match)
    → classify hash info base_url text ≡ some m
    → IsRedacted hash (anchor base_url info) text m.matched_value
unfolding classify
classify-IsRedacted hash info base_url text m =
    if_keeps Q (not (contains_text text (anchor base_url info))) (λ _ h. ground arith)
      (λ _.
        if_keeps Q (not (info.visibility == ascii "private"))
          (λ _ h. inl (ap (λ x. x.matched_value) (sym (some_injective _ m h))))
          (λ _ h.
            subst (λ x. IsRedacted hash (anchor base_url info) text x.matched_value)
              (some_injective _ m h)
              (private-IsRedacted hash info (anchor base_url info) text
                (candidate_token_after (anchor base_url info) text) refl)))
  where
    Q : Option Match → Type 0
    Q r = r ≡ some m → IsRedacted hash (anchor base_url info) text m.matched_value
