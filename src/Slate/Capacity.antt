-- ===== src/Slate/Capacity.antt =====
-- How many encoders and personal pages the manager of gateway/internal/slate/slate.go keeps, and what
-- its remembered fallbacks do.
use psychic_computing_machin.Common.{
  absent_not_present, ℕ, ◌≤◌, ◌≡◌, ◌≢◌, ==_iff, refl, sym, ap, ◌∙◌, true, false, ◌&&◌, ◌||◌, not,
  Option, none, some, List, [], ◌∷◌, length, ltb, leb, eqb, nat_eq, list_eq, ◌==◌, if◌then◌else◌,
  if_keeps, option_keeps, Result, arith,
}
use psychic_computing_machin.Common.Text.{Bytes}
use psychic_computing_machin.Common.Map.{lookup, insert, erase, lookup-erase}
use psychic_computing_machin.Slate.{
  max_personal, Descriptor, SlateSession, SlateManager, SlateError, new_slates, recall, remembered,
  valid_variant, valid_slate_name, valid_key, page_signature, Encoder, prepare, serve_found,
  serve_session, get_slate_path, reap_slates, restart_changed, close_slates, exit_slate,
  AudioSettings, SlateText, SlateOp, prepares, gets, reaps, restarts, closes, exits, slate_step,
  slate_run,
}
use psychic_computing_machin.Slate.Limits.{IsBounded, serve_session-IsBounded}
use psychic_computing_machin.Slate.Sizes.{length-insert, length-insert_present, length-retain}

at_most_trans : {a b c : ℕ} → a ≤ b → b ≤ c → a ≤ c
at_most_trans {a} {b} {c} h g = omega arith

page_added :
    (key : Bytes) (d : Descriptor) (m : SlateManager)
    → leb max_personal (length m.personal) ≡ false
    → IsBounded m
    → IsBounded (record m { personal = insert key d m.personal })
page_added key d m room h = record {
  encoders = h.encoders;
  pages = ground (arith, length-insert key d m.personal, room);
}

page_kept :
    (key : Bytes) (d d' : Descriptor) (m : SlateManager)
    → lookup key m.personal ≡ some d
    → IsBounded m
    → IsBounded (record m { personal = insert key d' m.personal })
page_kept key d d' m here h = record {
  encoders = h.encoders;
  pages = ground (arith, h.pages, length-insert_present key d' d m.personal here);
}

module _ (e : Encoder) where
  prepare-IsBounded :
      (now : ℕ) (variant : Bytes) (access token : ℕ) (cutoff : Option ℕ) (m : SlateManager)
      → IsBounded m
      → IsBounded (prepare e now variant access token cutoff m).0
  unfolding prepare
  prepare-IsBounded now variant access token none m h = h
  prepare-IsBounded now variant access token (some cutoff) m h =
      let key = e.signature variant access token cutoff in
      if_keeps Q ((not (valid_variant variant) || eqb access 0) || m.stopped) (λ _. h)
        (λ _.
          option_keeps Q (lookup key m.personal)
            (λ _.
              if_keeps Q (leb max_personal (length m.personal)) (λ _. h)
                (λ room. page_added key _ m room h))
            (λ old here. page_kept key old (record old { last_used = now }) m here h))
    where
      Q : SlateManager × Bytes → Type 0
      Q r = IsBounded r.0

  get_slate_path-IsBounded :
      (order order' : List Bytes) (now : ℕ) (variant key name : Bytes) (m : SlateManager)
      → IsBounded m
      → IsBounded (get_slate_path e order order' now variant key name m).0
  unfolding get_slate_path
  get_slate_path-IsBounded order order' now variant key name m h =
      if_keeps Q
        ((not (valid_variant variant) || not (valid_slate_name name))
          || (not (eqb (length key) 0) && not (valid_key key)))
        (λ _. h)
        (λ _.
          if_keeps Q m.stopped (λ _. h)
            (λ _.
              if_keeps Q (eqb (length key) 0)
                (λ _. serve_session-IsBounded e order order' now variant variant none m h)
                (λ _.
                  option_keeps Q (lookup key m.personal) (λ _. h)
                    (λ d here.
                      if_keeps Q (not (d.variant == variant) || not (key == page_signature e d))
                        (λ _. h)
                        (λ _.
                          serve_session-IsBounded e order order' now _ variant _
                            (record m {
                              personal = insert key (record d { last_used = now }) m.personal;
                            })
                            (page_kept key d (record d { last_used = now }) m here h))))))
    where
      Q : SlateManager × Result SlateError Bytes → Type 0
      Q r = IsBounded r.0

  restart_changed-IsBounded :
      (audio : Option (Option AudioSettings)) (load : Bytes → Option SlateText) (m : SlateManager)
      → IsBounded m
      → IsBounded (restart_changed audio load m)
  unfolding restart_changed
  restart_changed-IsBounded (some none) load m h = h
  restart_changed-IsBounded none load m h = record {
    encoders = at_most_trans (length-retain _ m.sessions) h.encoders;
    pages = h.pages;
  }
  restart_changed-IsBounded (some (some now)) load m h = record {
    encoders = at_most_trans (length-retain _ m.sessions) h.encoders;
    pages = h.pages;
  }

  exit_slate-IsBounded : (id : Bytes) (m : SlateManager) → IsBounded m → IsBounded (exit_slate id m)
  unfolding exit_slate
  exit_slate-IsBounded id m h =
      option_keeps IsBounded (lookup id m.sessions) (λ _. h)
        (λ s here. record {
          encoders = ground (
            arith,
            h.encoders,
            length-insert_present id (record s { done = true }) s m.sessions here,
          );
          pages = h.pages;
        })

  slate_step-IsBounded :
      (o : SlateOp) (m : SlateManager) → IsBounded m → IsBounded (slate_step e o m)
  unfolding slate_step close_slates reap_slates
  slate_step-IsBounded (prepares now variant access token cutoff) m h =
      prepare-IsBounded now variant access token cutoff m h
  slate_step-IsBounded (gets order order' now variant key name) m h =
      get_slate_path-IsBounded order order' now variant key name m h
  slate_step-IsBounded (reaps now) m h = record {
    encoders = at_most_trans (length-retain _ m.sessions) h.encoders;
    pages = at_most_trans (length-retain _ m.personal) h.pages;
  }
  slate_step-IsBounded (restarts audio load) m h = restart_changed-IsBounded audio load m h
  slate_step-IsBounded closes m h =
      if_keeps IsBounded m.stopped (λ _. h)
        (λ _. record { encoders = ground arith; pages = h.pages })
  slate_step-IsBounded (exits id) m h = exit_slate-IsBounded id m h

  slate_run_keeps :
      (os : List SlateOp) (m : SlateManager) → IsBounded m → IsBounded (slate_run e os m)
  unfolding slate_run
  slate_run_keeps [] m h = h
  slate_run_keeps (o ∷ os) m h = slate_run_keeps os _ (slate_step-IsBounded o m h)

-- After any sequence of requests, preparations, reaps, restarts, ends of processes and a closing, the
-- manager has at most four encoder sessions and three personal pages, whatever a start comes to and in
-- whichever order the program goes through its maps.
pub slate_run-IsBounded : (e : Encoder) (os : List SlateOp) → IsBounded (slate_run e os new_slates)
slate_run-IsBounded e os =
    slate_run_keeps e os new_slates (record { encoders = ground arith; pages = ground arith })

recall_fresh :
    (id : Bytes) (m : SlateManager)
    → lookup id m.sessions ≡ none
    → lookup id m.fallbacks ≡ none
    → recall id m ≡ (m, (id, none))
unfolding recall
recall_fresh id m gone empty =
    option_keeps Q (lookup id m.sessions)
      (λ _.
        option_keeps Q (remembered (lookup id m.fallbacks)) (λ _. refl)
          (λ target h. elim (absent_not_present _ target (ap remembered empty) h) [ ]))
      (λ s here. elim (absent_not_present _ s gone here) [ ])
  where
    Q : SlateManager × (Bytes × Option SlateSession) → Type 0
    Q r = r ≡ (m, (id, none))

recall_forgets :
    (id target : Bytes) (c : ℕ) (m : SlateManager)
    → IsBounded m
    → lookup id m.sessions ≡ none
    → lookup id m.fallbacks ≡ some (c ∷ target)
    → recall id m ≡ (record m { fallbacks = erase id m.fallbacks }, (id, none))
unfolding recall
recall_forgets id target c m h gone kept =
    option_keeps Q (lookup id m.sessions)
      (λ _.
        option_keeps Q (remembered (lookup id m.fallbacks))
          (λ empty. elim (absent_not_present _ (c ∷ target) empty (ap remembered kept)) [ ])
          (λ target _.
            if_keeps Q (ltb (length m.sessions) 6) (λ _. refl)
              (λ full. elim (below_six (length m.sessions) h.encoders full) [ ])))
      (λ s here. elim (absent_not_present _ s gone here) [ ])
  where
    Q : SlateManager × (Bytes × Option SlateSession) → Type 0
    Q r = r ≡ (record m { fallbacks = erase id m.fallbacks }, (id, none))

    below_six : (n : ℕ) → n ≤ 4 → ltb n 6 ≢ false
    below_six n h = ground arith

recalled :
    (id target : Bytes) (c : ℕ) (m : SlateManager)
    → IsBounded m
    → lookup id m.sessions ≡ none
    → lookup id m.fallbacks ≡ some (c ∷ target)
    → recall id m ≡ recall id (record m { fallbacks = erase id m.fallbacks })
recalled id target c m h gone kept =
    recall_forgets id target c m h gone kept
    ∙ sym (
        recall_fresh id (record m { fallbacks = erase id m.fallbacks }) gone
          (lookup-erase id id m.fallbacks ∙ erased id (lookup id m.fallbacks)))
  where
    erased : (id : Bytes) (o : Option Bytes) → (if id == id then none else o) ≡ none
    erased id o = rw ((==_iff id id).1 refl) refl

-- In every manager that operations lead to from a new one, a fallback remembered for a page without a session
-- changes nothing: the request has the result, and leaves the manager, of one that finds the memory
-- erased. `GetPath` compares the number of sessions with 6, which four never reach.
pub fallback_forgotten :
    (e : Encoder) (os : List SlateOp) (order order' : List Bytes) (now : ℕ)
    (id variant target : Bytes) (c : ℕ) (d : Option Descriptor)
    → let m = slate_run e os new_slates in
      lookup id m.sessions ≡ none
      → lookup id m.fallbacks ≡ some (c ∷ target)
      → serve_session e order order' now id variant d m
        ≡ serve_session e order order' now id variant d
            (record m { fallbacks = erase id m.fallbacks })
unfolding serve_session
fallback_forgotten e os order order' now id variant target c d gone kept =
    ap (serve_found e order order' now id variant d)
      (recalled id target c (slate_run e os new_slates) (slate_run-IsBounded e os) gone kept)
