-- ===== src/Relay/Trying.antt =====
-- Visits of gateway/internal/gatewayhttp/alwayson.go to a relay whose wait may be over.
use psychic_computing_machin.Common.{
  absent_not_present, false-true, ℕ, suc, ◌≤◌, ◌≡◌, refl, sym, subst, ◌∙◌, Bool, true, false, ◌&&◌,
  ◌||◌, none, some, List, [], ◌∷◌, leb, eqb, nat_eq, arith, option_keeps, ◌⊎◌, inl, inr, All,
}
use psychic_computing_machin.Common.Text.{Bytes}
use psychic_computing_machin.Common.Map.{Map, lookup, erase, lookup-empty}
use psychic_computing_machin.Gateway.{Stream}
use psychic_computing_machin.Relay.{
  Sessions, RuntimeState, Supervisor, report, report_all, visit, visits, unpin, choose, max_relays,
  Visit, Turn, no_slot, reconcile, run_always_on,
}
use psychic_computing_machin.Relay.Steps.{visit_keeps, report_all_keeps, unpin_keeps}
use psychic_computing_machin.Relay.Waiting.{
  attempts, IsWaiting, IsWaiting-IsStable, IsMore, IsMore-IsStable, visit-IsWaiting, visit-IsMore,
  report-IsWaiting, report-IsMore, same_or_not,
}
use psychic_computing_machin.Relay.Keeping.{
  IsWanted, IsKeyed, early_or_late, choose-IsKeyed, erase-IsWaiting,
}

unfoldable pub is_due : ℕ → ℕ → Visit → Bool
is_due id t x = eqb x.id id && leb t x.now

unfoldable pub some_due : ℕ → ℕ → List Visit → Bool
unfolding is_due
some_due id t [] = false
some_due id t (x ∷ xs) = is_due id t x || some_due id t xs

module _ (r : Sessions) (signature : Stream → Bytes) (id : ℕ) where
  open r use {State, slots, pinned}

  unfoldable pub Attempted : ℕ → ℕ → ℕ → ℕ → Supervisor r → Type 0
  Attempted f t c n v = (IsWaiting id f t c v × IsMore r id n v) ⊎ IsMore r id (suc n) v

  visit_due :
      (pins : Map ℕ Bool) (x : Visit) (st : Stream) (f t c n : ℕ) (v : Supervisor r)
      → st.id ≡ id
      → t ≤ x.now
      → Attempted f t c n v
      → IsMore r id (suc n) (visit r pins x.now x.later st (signature st) v)
  unfolding Attempted
  visit_due pins x st f t c n v same late (inr more) =
      visit_keeps r (λ u. IsMore r id (suc n) u) pins x.now x.later st (signature st) v
        (IsMore-IsStable r id st.id (suc n)) more
  visit_due pins x st f t c n v same late (inl (h, more)) =
      visit-IsMore r id pins x.now x.later st (signature st) f t c n v (sym same) late h more

  visit-Attempted :
      (pins : Map ℕ Bool) (x : Visit) (st : Stream) (f t c n : ℕ) (v : Supervisor r)
      → Attempted f t c n v
      → Attempted f t c n (visit r pins x.now x.later st (signature st) v)
  unfolding Attempted
  visit-Attempted pins x st f t c n v (inr more) = inr (
      visit_keeps r (λ u. IsMore r id (suc n) u) pins x.now x.later st (signature st) v
        (IsMore-IsStable r id st.id (suc n)) more)
  visit-Attempted pins x st f t c n v (inl (h, more)) =
      let still =
        visit_keeps r (λ u. IsMore r id n u) pins x.now x.later st (signature st) v
          (IsMore-IsStable r id st.id n) more in
      elim (same_or_not id st.id) [
        | inr other ↦ inl (
          visit_keeps r (λ (u : Supervisor r). IsWaiting id f t c u) pins x.now x.later st
              (signature st) v (IsWaiting-IsStable r id st.id f t c other) h,
          still,
        )
        | inl same ↦ elim (early_or_late x.now t) [
          | inl early ↦
              inl (visit-IsWaiting r id pins x.now x.later st (signature st) f t c v early h, still)
          | inr late ↦ inr (visit_due pins x st f t c n v (sym same) late (inl (h, more)))
        ]
      ]

  visits-Attempted :
      (want : Map ℕ Stream) (pins : Map ℕ Bool) (xs : List Visit) (f t c n : ℕ) (v : Supervisor r)
      → Attempted f t c n v
      → Attempted f t c n (visits r signature want pins xs v)
  unfolding visits
  visits-Attempted want pins [] f t c n v h = h
  visits-Attempted want pins (x ∷ xs) f t c n v h =
      option_keeps (λ u. Attempted f t c n u) (lookup x.id want)
        (λ _. visits-Attempted want pins xs f t c n v h)
        (λ st _. visits-Attempted want pins xs f t c n _ (visit-Attempted pins x st f t c n v h))

  visits-IsMore :
      (want : Map ℕ Stream) (pins : Map ℕ Bool) (xs : List Visit) (c : ℕ) (v : Supervisor r)
      → IsMore r id c v
      → IsMore r id c (visits r signature want pins xs v)
  unfolding visits
  visits-IsMore want pins [] c v h = h
  visits-IsMore want pins (x ∷ xs) c v h =
      option_keeps (λ u. IsMore r id c u) (lookup x.id want) (λ _. visits-IsMore want pins xs c v h)
        (λ st _. visits-IsMore want pins xs c _ (
          visit_keeps r (λ u. IsMore r id c u) pins x.now x.later st (signature st) v
            (IsMore-IsStable r id st.id c) h))

  -- A due visit of the stream attempts a start, unless one was attempted before it.
  visits_due :
      (want : Map ℕ Stream) (pins : Map ℕ Bool) (xs : List Visit) (f t c n : ℕ) (v : Supervisor r)
      → IsKeyed want
      → IsWanted want id
      → some_due id t xs ≡ true
      → Attempted f t c n v
      → IsMore r id (suc n) (visits r signature want pins xs v)
  unfolding visits some_due is_due
  visits_due want pins [] f t c n v keyed wanted due h = elim (false-true due) [ ]
  visits_due want pins (x ∷ xs) f t c n v keyed (st, here) due h =
      elim (due_cases x.id t x.now (some_due id t xs) due) [
        | inl this ↦
            option_keeps (λ u. IsMore r id (suc n) u) (lookup x.id want)
              (λ gone'.
                elim (absent_not_present _ st gone' (lookup_same x.id want (sym this.0) here)) [ ])
              (λ st' found.
                visits-IsMore want pins xs (suc n) _
                  (visit_due pins x st' f t c n v (keyed x.id st' found ∙ this.0) this.1 h))
        | inr rest ↦
            option_keeps (λ u. IsMore r id (suc n) u) (lookup x.id want)
              (λ _. visits_due want pins xs f t c n v keyed (st, here) rest h)
              (λ st' _.
                visits_due want pins xs f t c n _ keyed (st, here) rest
                  (visit-Attempted pins x st' f t c n v h))
      ]
    where
      lookup_same :
          (k : ℕ) (m : Map ℕ Stream) {st : Stream}
          → id ≡ k
          → lookup id m ≡ some st
          → lookup k m ≡ some st
      lookup_same k m {st} e h = subst (λ k. lookup k m ≡ some st) e h

      due_cases :
          (k t now : ℕ) (rest : Bool)
          → ((eqb k id && leb t now) || rest) ≡ true
          → ((k ≡ id) × (t ≤ now)) ⊎ (rest ≡ true)
      due_cases k t now true h = inr refl
      due_cases k t now false h = inl (ground (arith, h))

  abbrev pub HasSlot : Bool → List Stream → Type 0
  HasSlot relay_only sts = IsWanted (choose (max_relays relay_only slots) sts []).0 id

  report-Attempted :
      (f t c n j : ℕ) (s : RuntimeState) (v : Supervisor r)
      → Attempted f t c n v
      → Attempted f t c n (report r j s v)
  unfolding Attempted attempts
  report-Attempted f t c n j s v (inl (h, more)) =
      inl (report-IsWaiting r id j f t c s v h, report-IsMore r id j n s v more)
  report-Attempted f t c n j s v (inr more) = inr (report-IsMore r id j (suc n) s v more)

  erase-Attempted :
      (want : Map ℕ Stream) (f t c n : ℕ)
      → IsWanted want id
      → (j : ℕ) (s : State) (v : Supervisor r) → lookup j want ≡ none
      → Attempted f t c n v
      → Attempted f t c n (record v { sessions = s; relays = erase j v.relays })
  unfolding Attempted
  erase-Attempted want f t c n wanted j s v gone (inl (h, more)) =
      inl (erase-IsWaiting r signature id want f t c wanted j s v gone h, more)
  erase-Attempted want f t c n wanted j s v gone (inr more) = inr more

  module _ (relay_only : Bool) (sts : List Stream) (f t c n : ℕ) (v : Supervisor r) where
    ready : Supervisor r
    ready =
        let want = (choose (max_relays relay_only slots) sts []).0 in
        let told = report_all r (choose (max_relays relay_only slots) sts []).1 v in
        unpin r want (pinned told.sessions) told

    ready-Attempted : HasSlot relay_only sts → Attempted f t c n v → Attempted f t c n ready
    unfolding ready
    ready-Attempted wanted h =
        let want = (choose (max_relays relay_only slots) sts []).0 in
        unpin_keeps r (λ u. Attempted f t c n u) want _ _ (erase-Attempted want f t c n wanted)
          (report_all_keeps r (λ u. Attempted f t c n u)
            (choose (max_relays relay_only slots) sts []).1 v
            (λ j u. report-Attempted f t c n j no_slot u) h)

    reconcile-Attempted :
        (order : List Visit)
        → HasSlot relay_only sts
        → Attempted f t c n v
        → Attempted f t c n (reconcile r signature relay_only sts order v)
    unfolding reconcile ready
    reconcile-Attempted order wanted h =
        visits-Attempted _ _ order f t c n _ (ready-Attempted wanted h)

    pub reconcile_due :
        (order : List Visit)
        → HasSlot relay_only sts
        → some_due id t order ≡ true
        → Attempted f t c n v
        → IsMore r id (suc n) (reconcile r signature relay_only sts order v)
    unfolding reconcile ready
    reconcile_due order wanted due h =
        visits_due (choose (max_relays relay_only slots) sts []).0 _ order f t c n _
          (choose-IsKeyed (max_relays relay_only slots) sts []
            (λ k st e. elim (absent_not_present _ st (lookup-empty k) e) [ ]))
          wanted due (ready-Attempted wanted h)

  abbrev pub IsWantedIn : Bool → Turn r → Type 0
  IsWantedIn relay_only x = (sts : List Stream) → x.streams ≡ some sts → HasSlot relay_only sts

  moved-Attempted :
      (f t c n : ℕ) (s : State) (v : Supervisor r)
      → Attempted f t c n v
      → Attempted f t c n (record v { sessions = s })
  unfolding Attempted
  moved-Attempted f t c n s v (inl (h, more)) =
      inl (record { waits = h.waits; counted = h.counted }, more)
  moved-Attempted f t c n s v (inr more) = inr more

  pub run-Attempted :
      (relay_only : Bool) (turns : List (Turn r)) (f t c n : ℕ) (v : Supervisor r)
      → All (IsWantedIn relay_only) turns
      → Attempted f t c n v
      → Attempted f t c n (run_always_on r signature relay_only turns v)
  unfolding run_always_on
  run-Attempted relay_only [] f t c n v wanted h = h
  run-Attempted relay_only (x ∷ xs) f t c n v wanted h =
      let v' : Supervisor r = record v { sessions = x.before v.sessions } in
      let h' = moved-Attempted f t c n (x.before v.sessions) v h in
      option_keeps (λ u. Attempted f t c n u) x.streams
        (λ _. run-Attempted relay_only xs f t c n v' wanted.1 h')
        (λ sts given.
          run-Attempted relay_only xs f t c n _ wanted.1
            (reconcile-Attempted relay_only sts f t c n v' x.order (wanted.0 sts given) h'))
