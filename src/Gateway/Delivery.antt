-- ===== src/Gateway/Delivery.antt =====
-- What reaches a viewer from the source, by gateway/internal/gatewayhttp/handler.go.
use psychic_computing_machin.Common.{
  ℕ, zero, suc, ◌+◌, ◌-◌, ◌≤◌, ◌<◌, ◌≡◌, refl, sym, subst, ap, ◌∙◌, Bool, true, false, ◌&&◌, not,
  List, [], ◌∷◌, ◌++◌, length, length-append, take, drop, take-append-drop, ltb, leb, if_keeps,
  Result, ok, err, arith,
}
use psychic_computing_machin.Common.Text.{Bytes}
use psychic_computing_machin.Gateway.{
  AccessPoint, Body, Fetched, timed_out, unreachable, answered, Served, unavailable, bad_gateway,
  invalid_playlist, running_remux, new_remux, playlist, passed_on, write_playlist, serve_playlist,
  sniff_and_serve, answer_entry, settled, serve_entry, sniff_limit, max_playlist_size, read_bounded,
  uses_credential_placeholders,
}
use psychic_computing_machin.Remux.{looks_like_mpegts}
use psychic_computing_machin.Hls.{is_playlist}

-- A remux session, running or new.
abbrev pub is_remuxed : Served → Bool
is_remuxed running_remux = true
is_remuxed (new_remux body) = true
is_remuxed unavailable = false
is_remuxed bad_gateway = false
is_remuxed invalid_playlist = false
is_remuxed (playlist text) = false
is_remuxed (passed_on body) = false

take-all : {A : Type 0} (n : ℕ) (xs : List A) → length (take n xs) < n → take n xs ≡ xs
take-all zero xs h = ground arith
take-all (suc n) [] h = refl
take-all (suc n) (x ∷ xs) h = ap (λ l. x ∷ l) (take-all n xs (omega arith))

-- A bounded read that stays below its bound has read everything.
bounded_read :
    (limit bound : ℕ) (xs : Bytes)
    → limit ≤ bound
    → length (take limit xs ++ take (bound - length (take limit xs) + 1) (drop limit xs)) ≤ bound
    → take limit xs ++ take (bound - length (take limit xs) + 1) (drop limit xs) ≡ xs
bounded_read limit bound xs small h =
    let tail = drop limit xs in
    let left = bound - length (take limit xs) + 1 in
    let sum = length-append (take limit xs) (take left tail) in
    ap (λ r. take limit xs ++ r) (take-all left tail (omega arith)) ∙ take-append-drop limit xs

read_bounded-whole :
    (xs : Bytes) → length (read_bounded xs) ≤ max_playlist_size → read_bounded xs ≡ xs
unfolding read_bounded
read_bounded-whole xs h = bounded_read sniff_limit max_playlist_size xs (omega arith) h

fits_bound : (n : ℕ) → ltb max_playlist_size n ≡ false → n ≤ max_playlist_size
fits_bound n h = ground arith

module _ {ℓ} {E : Type ℓ} (valid_utf8 : Bytes → Bool) (rewrite : Bytes → Result E Bytes) where
  remuxed_written : (r : Result E Bytes) → is_remuxed (write_playlist r) ≡ false
  remuxed_written (ok out) = refl
  remuxed_written (err e) = refl

  remuxed_playlist : (body : Body) → is_remuxed (serve_playlist rewrite body) ≡ false
  unfolding serve_playlist
  remuxed_playlist body =
      if_keeps Q body.rest_fails (λ _. refl)
        (λ _.
          if_keeps Q (ltb max_playlist_size (length (read_bounded body.bytes))) (λ _. refl)
            (λ _. remuxed_written (rewrite (read_bounded body.bytes))))
    where
      Q : Served → Type 0
      Q s = is_remuxed s ≡ false

  remuxed_sniffed :
      (p : AccessPoint) (body : Body)
      → p.stream.allow_remux ≡ false
      → is_remuxed (sniff_and_serve valid_utf8 rewrite p true body) ≡ false
  unfolding sniff_and_serve
  remuxed_sniffed p body refused =
      if_keeps Q body.head_fails (λ _. refl)
        (λ _.
          if_keeps Q (looks_like_mpegts (take sniff_limit body.bytes))
            (λ _. if_keeps Q p.stream.allow_remux (λ allowed. ground arith) (λ _. refl))
            (λ _.
              if_keeps Q (is_playlist (take sniff_limit body.bytes)) (λ _. remuxed_playlist body)
                (λ _.
                  if_keeps Q (uses_credential_placeholders p.stream.source_url && true) (λ _. refl)
                    (λ _. refl))))
    where
      Q : Served → Type 0
      Q s = is_remuxed s ≡ false

  remuxed_answer :
      (p : AccessPoint) (f : Fetched)
      → p.stream.allow_remux ≡ false
      → is_remuxed (answer_entry valid_utf8 rewrite p f) ≡ false
  unfolding answer_entry
  remuxed_answer p timed_out refused = refl
  remuxed_answer p unreachable refused = refl
  remuxed_answer p (answered status body) refused =
      if_keeps (λ s. is_remuxed s ≡ false) (leb 400 status) (λ _. refl)
        (λ _. remuxed_sniffed p body refused)

  unbarred :
      (allowed barred existing : Bool)
      → allowed ≡ false
      → (not allowed && barred) ≡ false
      → existing ≡ true
      → true ≡ (not barred && existing)
  unbarred allowed barred existing a b c = ground arith

  -- For a stream whose owner may not remux, an entry request that this server answers itself is
  -- served by a remux session exactly when the manager knew none the first time it was asked and
  -- one the second time: whatever the source answers, that is the only way to one.
  pub serve_entry_remuxed :
      (p : AccessPoint) (barred existing : Bool) (first second : Fetched)
      → p.stream.allow_remux ≡ false
      → is_remuxed (serve_entry valid_utf8 rewrite p barred existing first second)
        ≡ (not barred && existing)
  unfolding serve_entry
  serve_entry_remuxed p barred existing first second refused =
      if_keeps Q (not p.stream.allow_remux && barred) (λ shut. ground arith)
        (λ clear.
          if_keeps Q existing
            (λ found. unbarred p.stream.allow_remux barred existing refused clear found)
            (λ absent. remuxed_answer p (settled first second) refused ∙ ground arith))
    where
      Q : Served → Type 0
      Q s = is_remuxed s ≡ (not barred && existing)

  written_whole : (r : Result E Bytes) (out : Bytes) → write_playlist r ≡ playlist out → r ≡ ok out
  written_whole (ok text) out h = ground arith
  written_whole (err e) out h = ground arith

  -- A playlist that is served is the rewriting of the whole body, which is at most 4 MiB long: a
  -- longer one is never cut short.
  pub serve_playlist_whole :
      (body : Body) (out : Bytes)
      → serve_playlist rewrite body ≡ playlist out
      → (rewrite body.bytes ≡ ok out) × (length body.bytes ≤ max_playlist_size)
  unfolding serve_playlist
  serve_playlist_whole body out =
      if_keeps Q body.rest_fails (λ _ e. ground arith)
        (λ _.
          if_keeps Q (ltb max_playlist_size (length full)) (λ _ e. ground arith)
            (λ fits e.
              let small = fits_bound (length full) fits in
              let whole = read_bounded-whole body.bytes small in
              (
                ap (λ t. rewrite t) (sym whole) ∙ written_whole (rewrite full) out e,
                subst (λ t. length t ≤ max_playlist_size) whole small,
              )))
    where
      full : Bytes
      full = read_bounded body.bytes

      Q : Served → Type ℓ
      Q s =
          s ≡ playlist out → (rewrite body.bytes ≡ ok out) × (length body.bytes ≤ max_playlist_size)
