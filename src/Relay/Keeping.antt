-- ===== src/Relay/Keeping.antt =====
-- Turns of the loop of gateway/internal/gatewayhttp/alwayson.go through which a relay keeps waiting.
use psychic_computing_machin.Common.{
  some_injective, absent_not_present, ℕ, ◌≤◌, ◌<◌, ◌≡◌, sym, ap, subst, ◌∙◌, Bool, none, some, List,
  [], ◌∷◌, leb, eqb_iff, nat_eq, ◌==◌, arith, if◌then◌else◌, if_keeps, option_keeps, Bool-cases,
  ◌⊎◌, inl, inr, length, All,
}
use psychic_computing_machin.Common.Text.{Bytes}
use psychic_computing_machin.Common.Map.{Map, lookup, insert, erase, lookup-insert, lookup-erase}
use psychic_computing_machin.Gateway.{Stream}
use psychic_computing_machin.Relay.{
  Sessions, Supervisor, visits, choose, max_relays, Visit, Turn, no_slot, reconcile, run_always_on,
}
use psychic_computing_machin.Relay.Steps.{report_all_keeps, unpin_keeps}
use psychic_computing_machin.Relay.Waiting.{IsWaiting, visit-IsWaiting, report-IsWaiting}

-- The stream is among those that get a slot.
abbrev pub IsWanted : Map ℕ Stream → ℕ → Type 0
IsWanted want id = (st : Stream) × (lookup id want ≡ some st)

-- Every wanted stream is kept under its id.
abbrev pub IsKeyed : Map ℕ Stream → Type 0
IsKeyed want = (id : ℕ) (st : Stream) → lookup id want ≡ some st → st.id ≡ id

pub early_or_late : (a b : ℕ) → (a < b) ⊎ (b ≤ a)
early_or_late a b = omega arith

pub choose-IsKeyed :
    (limit : ℕ) (sts : List Stream) (want : Map ℕ Stream)
    → IsKeyed want
    → IsKeyed (choose limit sts want).0
unfolding choose
choose-IsKeyed limit [] want h = h
choose-IsKeyed limit (st ∷ sts) want h =
    if_keeps (λ (w : Map ℕ Stream × List ℕ). IsKeyed w.0) (leb limit (length want))
      (λ _. choose-IsKeyed limit sts want h)
      (λ _. choose-IsKeyed limit sts (insert st.id st want) inserted)
  where
    inserted : IsKeyed (insert st.id st want)
    inserted k st' e = joined k st' (sym (lookup-insert st.id k st want) ∙ e)
      where
        joined :
            (k : ℕ) (st' : Stream)
            → (if st.id == k then some st else lookup k want) ≡ some st'
            → st'.id ≡ k
        joined k st' =
            if_keeps (λ o. o ≡ some st' → st'.id ≡ k) (st.id == k)
              (λ same e. ap (λ x. x.id) (sym (some_injective st st' e)) ∙ (eqb_iff st.id k).0 same)
              (λ _ e. h k st' e)

module _ (r : Sessions) (signature : Stream → Bytes) (id : ℕ) where
  open r use {State, find_existing, slots, pinned}

  visits-IsWaiting :
      (want : Map ℕ Stream) (pins : Map ℕ Bool) (xs : List Visit) (f t c : ℕ) (v : Supervisor r)
      → All (λ x. x.now < t) xs
      → IsWaiting id f t c v
      → IsWaiting id f t c (visits r signature want pins xs v)
  unfolding visits
  visits-IsWaiting want pins [] f t c v early h = h
  visits-IsWaiting want pins (x ∷ xs) f t c v early h =
      option_keeps (λ (u : Supervisor r). IsWaiting id f t c u) (lookup x.id want)
        (λ _. visits-IsWaiting want pins xs f t c v early.1 h)
        (λ st _.
          visits-IsWaiting want pins xs f t c _ early.1
            (visit-IsWaiting r id pins x.now x.later st (signature st) f t c v early.0 h))

  pub erase-IsWaiting :
      (want : Map ℕ Stream) (f t c : ℕ)
      → IsWanted want id
      → (j : ℕ) (s : State) (v : Supervisor r) → lookup j want ≡ none
      → IsWaiting id f t c v
      → IsWaiting {r = r} id f t c (record v { sessions = s; relays = erase j v.relays })
  erase-IsWaiting want f t c (st, here) j s v gone h = record {
    waits = rw (lookup-erase j id v.relays) (elim (Bool-cases (j == id)) [
      | inl same ↦
          elim (absent_not_present _ st
            (subst (λ k. lookup k want ≡ none) ((eqb_iff j id).0 same) gone) here) [ ]
      | inr other ↦ ground (arith, other, h.waits)
    ]);
    counted = h.counted;
  }

  -- What the turn visits comes before the time, and the stream has a slot.
  abbrev pub IsEarly : Bool → ℕ → Turn r → Type 0
  IsEarly relay_only t x =
      (sts : List Stream)
      → x.streams ≡ some sts
      → IsWanted (choose (max_relays relay_only slots) sts []).0 id × All (λ y. y.now < t) x.order

  reconcile-IsWaiting :
      (relay_only : Bool) (sts : List Stream) (order : List Visit) (f t c : ℕ) (v : Supervisor r)
      → IsWanted (choose (max_relays relay_only slots) sts []).0 id
      → All (λ y. y.now < t) order
      → IsWaiting id f t c v
      → IsWaiting id f t c (reconcile r signature relay_only sts order v)
  unfolding reconcile
  reconcile-IsWaiting relay_only sts order f t c v wanted early h =
      let want = (choose (max_relays relay_only slots) sts []).0 in
      let left = (choose (max_relays relay_only slots) sts []).1 in
      let told =
        report_all_keeps r (λ (u : Supervisor r). IsWaiting id f t c u) left v
          (λ j u. report-IsWaiting r id j f t c no_slot u) h in
      visits-IsWaiting want _ order f t c _ early (
        unpin_keeps r (λ (u : Supervisor r). IsWaiting id f t c u) want _ _
          (erase-IsWaiting want f t c wanted) told)

  pub run-IsWaiting :
      (relay_only : Bool) (turns : List (Turn r)) (f t c : ℕ) (v : Supervisor r)
      → All (IsEarly relay_only t) turns
      → IsWaiting id f t c v
      → IsWaiting id f t c (run_always_on r signature relay_only turns v)
  unfolding run_always_on
  run-IsWaiting relay_only [] f t c v early h = h
  run-IsWaiting relay_only (x ∷ xs) f t c v early h =
      let v' : Supervisor r = record v { sessions = x.before v.sessions } in
      let h' : IsWaiting id f t c v' = record { waits = h.waits; counted = h.counted } in
      option_keeps (λ (u : Supervisor r). IsWaiting id f t c u) x.streams
        (λ _. run-IsWaiting relay_only xs f t c v' early.1 h')
        (λ sts given.
          let now = early.0 sts given in
          run-IsWaiting relay_only xs f t c _ early.1
            (reconcile-IsWaiting relay_only sts x.order f t c v' now.0 now.1 h'))
