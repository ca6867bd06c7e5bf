-- ===== src/Slate/Limits.antt =====
-- What a request of gateway/internal/slate/slate.go adds to the manager.
use psychic_computing_machin.Common.{
  none-some, ℕ, ◌-◌, ◌≤◌, ◌≡◌, refl, ap, subst, ◌∙◌, Bool, ◌&&◌, Option, none, some, List, [], ◌∷◌,
  length, ltb, leb, nat_eq, list_eq, ◌==◌, if_keeps, option_keeps, Result, arith,
}
use psychic_computing_machin.Common.Text.{Bytes}
use psychic_computing_machin.Common.Map.{Map, lookup, insert}
use psychic_computing_machin.Slate.{
  max_personal, max_processes, Descriptor, SlateSession, SlateManager, SlateError, recall, retire,
  touch_slate, pick, fall_back, short_lived, is_muted, is_backing_off, remembered, base_of,
  variant_part, is_generic, Encoder, begin_session, serve_found, serve_session,
}
use psychic_computing_machin.Slate.Sizes.{length-erase, length-insert, length-insert_present}

-- At most four encoders and three personal pages.
pub record IsBounded (m : SlateManager) : Type 0 where
  pub encoders : length m.sessions ≤ max_processes
  pub pages : length m.personal ≤ max_personal

-- The session that is found is one of the manager's, which has the sessions and the pages it had.
pub record IsFound (m : SlateManager) (r : SlateManager × (Bytes × Option SlateSession))
    : Type 0 where
  pub present : (s : SlateSession) → r.1.1 ≡ some s → lookup r.1.0 r.0.sessions ≡ some s
  pub sessions : r.0.sessions ≡ m.sessions
  pub personal : r.0.personal ≡ m.personal

some_entry :
    (j k : Bytes) (s t : SlateSession)
    → ◌≡◌ {A = Option (Bytes × SlateSession)} (some (j, s)) (some (k, t))
    → (j ≡ k) × (s ≡ t)
some_entry j k s t h = ground arith

pub recall-IsFound : (id : Bytes) (m : SlateManager) → IsFound m (recall id m)
unfolding recall
recall-IsFound id m =
    option_keeps (IsFound m) (lookup id m.sessions)
      (λ gone.
        option_keeps (IsFound m) (remembered (lookup id m.fallbacks))
          (λ _. record {
            present = λ s h. elim (none-some s h) [ ];
            sessions = refl;
            personal = refl;
          })
          (λ target _.
            if_keeps (IsFound m) (ltb (length m.sessions) 6)
              (λ _. record {
                present = λ s h. elim (none-some s h) [ ];
                sessions = refl;
                personal = refl;
              })
              (λ _.
                option_keeps (IsFound m) (lookup target m.sessions)
                  (λ _. record {
                    present = λ s h. elim (none-some s h) [ ];
                    sessions = refl;
                    personal = refl;
                  })
                  (λ s here. record {
                    present = λ s' h. here ∙ h;
                    sessions = refl;
                    personal = refl;
                  }))))
      (λ s here. record { present = λ s' h. here ∙ h; sessions = refl; personal = refl })

-- A session that lives on is unchanged, and a session is only dropped.
pub record IsRetired (found : Option SlateSession) (m : SlateManager)
    (r : SlateManager × Option SlateSession) : Type 0 where
  pub live : (s : SlateSession) → r.1 ≡ some s → (found ≡ some s) × (r.0.sessions ≡ m.sessions)
  pub fewer : length r.0.sessions ≤ length m.sessions
  pub personal : r.0.personal ≡ m.personal

pub retire-IsRetired :
    (now : ℕ) (id actual : Bytes) (found : Option SlateSession) (m : SlateManager)
    → IsRetired found m (retire now id actual found m)
unfolding retire
retire-IsRetired now id actual none m = record {
  live = λ s h. elim (none-some s h) [ ];
  fewer = ground arith;
  personal = refl;
}
retire-IsRetired now id actual (some s) m =
    if_keeps (IsRetired (some s) m) s.done
      (λ _. record {
        live = λ s' h. elim (none-some s' h) [ ];
        fewer = length-erase actual m.sessions;
        personal =
            if_keeps (λ (u : SlateManager). u.personal ≡ m.personal) s.used_radio (λ _. refl)
              (λ _.
                if_keeps (λ (u : SlateManager). u.personal ≡ m.personal)
                  (ltb (now - s.started) short_lived) (λ _. refl) (λ _. refl));
      })
      (λ _. record { live = λ s' h. (h, refl); fewer = ground arith; personal = refl })

pub touch_slate-IsBounded :
    (now : ℕ) (target : Bytes) (s : SlateSession) (m : SlateManager)
    → lookup target m.sessions ≡ some s
    → IsBounded m
    → IsBounded (touch_slate now target s m).0
unfolding touch_slate
touch_slate-IsBounded now target s m here h = record {
  encoders = ground (
    arith,
    length-insert_present target (record s { last_used = now }) s m.sessions here,
    h.encoders,
  );
  pages = h.pages;
}

-- The target of a fallback has a session.
pub pick_present :
    (p : Bytes → Bool) (targets : List Bytes) (sessions : Map Bytes SlateSession) (target : Bytes)
    (s : SlateSession)
    → pick p targets sessions ≡ some (target, s)
    → lookup target sessions ≡ some s
unfolding pick
pick_present p [] sessions target s = λ h. elim (none-some (target, s) h) [ ]
pick_present p (k ∷ ks) sessions target s =
    if_keeps Q (p k)
      (λ _.
        option_keeps Q (lookup k sessions) (λ _ h. pick_present p ks sessions target s h)
          (λ s' here h.
            let same = some_entry k target s' s h in
            subst (λ j. lookup j sessions ≡ some s) same.0 (here ∙ ap some same.1)))
      (λ _ h. pick_present p ks sessions target s h)
  where
    Q : Option (Bytes × SlateSession) → Type 0
    Q r = r ≡ some (target, s) → lookup target sessions ≡ some s

pub fall_back-IsBounded :
    (order order' : List Bytes) (now : ℕ) (id variant : Bytes) (m : SlateManager)
    → IsBounded m
    → IsBounded (fall_back order order' now id variant m).0
unfolding fall_back
fall_back-IsBounded order order' now id variant m h =
    let same_base : Bytes → Bool =
      λ target. is_generic target && (base_of (variant_part target) == base_of variant) in
    option_keeps (λ (r : SlateManager × Result SlateError Bytes). IsBounded r.0)
      (pick same_base order m.sessions)
      (λ _.
        option_keeps (λ (r : SlateManager × Result SlateError Bytes). IsBounded r.0)
          (pick is_generic order' m.sessions) (λ _. h)
          (λ (target, s) found. touched is_generic order' target s found))
      (λ (target, s) found. touched same_base order target s found)
  where
    touched :
        (p : Bytes → Bool) (targets : List Bytes) (target : Bytes) (s : SlateSession)
        → pick p targets m.sessions ≡ some (target, s)
        → IsBounded
            (touch_slate now target s (record m { fallbacks = insert id target m.fallbacks })).0
    touched p targets target s found =
        touch_slate-IsBounded now target s _ (pick_present p targets m.sessions target s found)
          (record { encoders = h.encoders; pages = h.pages })

pub begin_session-IsBounded :
    (e : Encoder) (order order' : List Bytes) (now : ℕ) (id variant : Bytes) (d : Option Descriptor)
    (m : SlateManager)
    → IsBounded m
    → IsBounded (begin_session e order order' now id variant d m).0
unfolding begin_session touch_slate
begin_session-IsBounded e order order' now id variant d m h =
    if_keeps Q (is_backing_off now (lookup id m.failed_at)) (λ _. h)
      (λ _.
        if_keeps Q (leb max_processes (length m.sessions))
          (λ _. fall_back-IsBounded order order' now id variant m h)
          (λ room.
            option_keeps Q (e.start now variant d (is_muted now (lookup id m.radio_muted)))
              (λ _. record { encoders = h.encoders; pages = h.pages })
              (λ s _. record {
                encoders =
                    ground
                      (arith, length-insert id (record s { last_used = now }) m.sessions, room);
                pages = h.pages;
              })))
  where
    Q : SlateManager × Result SlateError Bytes → Type 0
    Q r = IsBounded r.0

pub serve_session-IsBounded :
    (e : Encoder) (order order' : List Bytes) (now : ℕ) (id variant : Bytes) (d : Option Descriptor)
    (m : SlateManager)
    → IsBounded m
    → IsBounded (serve_session e order order' now id variant d m).0
unfolding serve_session serve_found
serve_session-IsBounded e order order' now id variant d m h =
    let r = recall id m in
    let found = recall-IsFound id m in
    let r' = retire now id r.1.0 r.1.1 r.0 in
    let kept = retire-IsRetired now id r.1.0 r.1.1 r.0 in
    let h' : IsBounded r'.0 = record {
      encoders = ground (arith, h.encoders, kept.fewer, found.sessions);
      pages = ground (arith, h.pages, kept.personal, found.personal);
    } in
    option_keeps (λ (r : SlateManager × Result SlateError Bytes). IsBounded r.0) r'.1
      (λ _. begin_session-IsBounded e order order' now id variant d r'.0 h')
      (λ s live.
        let old = kept.live s live in
        touch_slate-IsBounded now r.1.0 s r'.0
          (ap (λ x. lookup r.1.0 x) old.1 ∙ found.present s old.0) h')
