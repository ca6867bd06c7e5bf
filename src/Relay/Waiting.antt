-- ===== src/Relay/Waiting.antt =====
-- Relays of gateway/internal/gatewayhttp/alwayson.go that wait after a failure, and what keeps them
-- waiting.
use psychic_computing_machin.Common.{
  ℕ, zero, suc, ◌+◌, ◌≤◌, ◌<◌, ◌≡◌, ◌≢◌, refl, sym, subst, Bool, true, false, none, some, List, [],
  ◌∷◌, ltb, eqb, eqb_iff, nat_eq, ◌==◌, arith, if◌then◌else◌, if_keeps, Bool-cases, ◌⊎◌, inl, inr,
}
use psychic_computing_machin.Common.Text.{Bytes}
use psychic_computing_machin.Common.Map.{Map, lookup, lookup-insert}
use psychic_computing_machin.Gateway.{Stream}
use psychic_computing_machin.Relay.{
  Sessions, RelayState, RuntimeState, no_slot, starting, running, waiting, Event, reported,
  attempted, Supervisor, keep, report, dead, attempt, ensure, visit,
}
use psychic_computing_machin.Relay.Steps.{IsStable, visit_keeps}

-- How often a start for the stream was attempted.
unfoldable pub attempts : ℕ → List Event → ℕ
attempts id [] = zero
attempts id (reported j s ∷ es) = attempts id es
attempts id (attempted j ∷ es) = let rest = attempts id es in if eqb j id then suc rest else rest

-- How often the relay of the stream was reported as running.
unfoldable pub sightings : ℕ → List Event → ℕ
sightings id [] = zero
sightings id (reported j running ∷ es) =
    let rest = sightings id es in if eqb j id then suc rest else rest
sightings id (reported j no_slot ∷ es) = sightings id es
sightings id (reported j starting ∷ es) = sightings id es
sightings id (reported j waiting ∷ es) = sightings id es
sightings id (attempted j ∷ es) = sightings id es

-- A relay that failed and is not to be started before the given time.
abbrev pub waiting_relay : ℕ → ℕ → RelayState
waiting_relay failures t = record { failures = failures; next_try = t; running_since = none }

-- The relay of a stream waits until a time, and its starts were attempted so often.
pub record IsWaiting {r : Sessions} (id failures t count : ℕ) (v : Supervisor r) : Type 0 where
  pub waits : lookup id v.relays ≡ some (waiting_relay failures t)
  pub counted : attempts id v.events ≡ count

ltb_not : (a b : ℕ) → a < b → ltb a b ≢ false
ltb_not a b h = ground arith

ltb_yes : (a b : ℕ) → b ≤ a → ltb a b ≢ true
ltb_yes a b h = ground arith

pub same_or_not : (a b : ℕ) → (a ≡ b) ⊎ (a ≢ b)
same_or_not a b = elim (Bool-cases (eqb a b)) [
  | inl h ↦ inl ((eqb_iff a b).0 h)
  | inr h ↦ inr (λ e. ground (arith, e, h))
]

module _ (r : Sessions) (id : ℕ) where
  open r use {State, find_existing, stop_relay, slots}

  pub keep-IsWaiting :
      (j f t c : ℕ) (st : RelayState) (v : Supervisor r)
      → (id ≡ j → st ≡ waiting_relay f t)
      → IsWaiting id f t c v
      → IsWaiting id f t c (keep r j st v)
  keep-IsWaiting j f t c st v same h = record {
    waits = rw (lookup-insert j id st v.relays) (elim (Bool-cases (j == id)) [
      | inl here ↦ ground (arith, same (sym ((eqb_iff _ _).0 here)), here)
      | inr there ↦ ground (arith, h.waits, there)
    ]);
    counted = h.counted;
  }

  pub report-IsWaiting :
      (j f t c : ℕ) (s : RuntimeState) (v : Supervisor r)
      → IsWaiting id f t c v
      → IsWaiting id f t c (report r j s v)
  unfolding attempts
  report-IsWaiting j f t c s v h = record { waits = h.waits; counted = h.counted }

  pub IsWaiting-IsStable :
      (j f t c : ℕ) → id ≢ j → IsStable r (λ (v : Supervisor r). IsWaiting id f t c v) j
  unfolding attempts
  IsWaiting-IsStable j f t c other = record {
    moved = λ s v h. record { waits = h.waits; counted = h.counted };
    kept = λ st v h. keep-IsWaiting j f t c st v (λ e. elim (other e) [ ]) h;
    told = λ s v h. report-IsWaiting j f t c s v h;
    begun = λ s v h. record { waits = h.waits; counted = ground (arith, other, h.counted) };
  }

  -- The attempts and the reports as running are at least so many.
  abbrev pub IsMore : ℕ → Supervisor r → Type 0
  IsMore c v = c ≤ attempts id v.events + sightings id v.events

  pub report-IsMore :
      (j c : ℕ) (s : RuntimeState) (v : Supervisor r) → IsMore c v → IsMore c (report r j s v)
  unfolding attempts sightings
  report-IsMore j c no_slot v h = h
  report-IsMore j c starting v h = h
  report-IsMore j c running v h = ground arith
  report-IsMore j c waiting v h = h

  pub IsMore-IsStable : (j c : ℕ) → IsStable r (λ v. IsMore c v) j
  unfolding attempts sightings
  IsMore-IsStable j c = record {
    moved = λ s v h. h;
    kept = λ st v h. h;
    told = λ s v h. report-IsMore j c s v h;
    begun = λ s v h. ground arith;
  }

  -- Before its time a relay that waits is not started.
  ensure-waits :
      (now later : ℕ) (st : Stream) (sig : Bytes) (f t c : ℕ) (v : Supervisor r)
      → id ≡ st.id
      → now < t
      → IsWaiting id f t c v
      → IsWaiting id f t c (ensure r now later st sig (waiting_relay f t) v)
  unfolding ensure
  ensure-waits now later st sig f t c v same early h =
      let s = find_existing st.id sig v.sessions in
      let moved : IsWaiting {r = r} id f t c (record v { sessions = s.0 }) = record {
        waits = h.waits;
        counted = h.counted;
      } in
      if_keeps (λ (u : Supervisor r). IsWaiting id f t c u) s.1
        (λ _. report-IsWaiting st.id f t c _ _ (
          keep-IsWaiting st.id f t c _ _ (λ _. refl)
            (record { waits = h.waits; counted = h.counted })))
        (λ _.
          if_keeps (λ (u : Supervisor r). IsWaiting id f t c u) (ltb now t)
            (λ _. keep-IsWaiting st.id f t c _ _ (λ _. refl) moved)
            (λ late. elim (ltb_not now t early late) [ ]))

  visit-waits :
      (pins : Map ℕ Bool) (now later : ℕ) (st : Stream) (sig : Bytes) (f t c : ℕ) (v : Supervisor r)
      → id ≡ st.id
      → now < t
      → IsWaiting id f t c v
      → IsWaiting id f t c (visit r pins now later st sig v)
  unfolding visit
  visit-waits pins now later st sig f t c v same early h =
      let waits = subst (λ k. lookup k v.relays ≡ some (waiting_relay f t)) same h.waits in
      rw waits (
        if_keeps (λ (u : Supervisor r). IsWaiting id f t c u) (dead (lookup st.id pins))
          (λ _.
            ensure-waits now later st sig f t c _ same early
              (record { waits = h.waits; counted = h.counted }))
          (λ _. ensure-waits now later st sig f t c v same early h))

  pub visit-IsWaiting :
      (pins : Map ℕ Bool) (now later : ℕ) (st : Stream) (sig : Bytes) (f t c : ℕ) (v : Supervisor r)
      → now < t
      → IsWaiting id f t c v
      → IsWaiting id f t c (visit r pins now later st sig v)
  visit-IsWaiting pins now later st sig f t c v early h = elim (same_or_not id st.id) [
    | inl same ↦ visit-waits pins now later st sig f t c v same early h
    | inr other ↦
        visit_keeps r (λ (u : Supervisor r). IsWaiting id f t c u) pins now later st sig v
          (IsWaiting-IsStable st.id f t c other) h
  ]

  -- From its time on it is started, unless a session serves the stream, and then it is reported as
  -- running.
  attempt-IsMore :
      (later : ℕ) (st : Stream) (sig : Bytes) (rs : RelayState) (c : ℕ) (v : Supervisor r)
      → id ≡ st.id
      → IsMore c v
      → IsMore (suc c) (attempt r later st sig rs v)
  unfolding attempt attempts sightings
  attempt-IsMore later st sig rs c v same h =
      if_keeps (λ (u : Supervisor r). IsMore (suc c) u) (r.start_relay st sig v.sessions).1
        (λ _. ground arith) (λ _. ground arith)

  ensure-IsMore :
      (now later : ℕ) (st : Stream) (sig : Bytes) (f t c : ℕ) (v : Supervisor r)
      → id ≡ st.id
      → t ≤ now
      → IsMore c v
      → IsMore (suc c) (ensure r now later st sig (waiting_relay f t) v)
  unfolding ensure
  ensure-IsMore now later st sig f t c v same late h =
      if_keeps (λ (u : Supervisor r). IsMore (suc c) u) (find_existing st.id sig v.sessions).1
        (λ _. unfold attempts sightings in ground arith)
        (λ _.
          if_keeps (λ (u : Supervisor r). IsMore (suc c) u) (ltb now t)
            (λ early. elim (ltb_yes now t late early) [ ])
            (λ _. attempt-IsMore later st sig (waiting_relay f t) c _ same h))

  pub visit-IsMore :
      (pins : Map ℕ Bool) (now later : ℕ) (st : Stream) (sig : Bytes) (f t c n : ℕ)
      (v : Supervisor r)
      → id ≡ st.id
      → t ≤ now
      → IsWaiting id f t c v
      → IsMore n v
      → IsMore (suc n) (visit r pins now later st sig v)
  unfolding visit
  visit-IsMore pins now later st sig f t c n v same late h more =
      let waits = subst (λ k. lookup k v.relays ≡ some (waiting_relay f t)) same h.waits in
      rw waits (
        if_keeps (λ (u : Supervisor r). IsMore (suc n) u) (dead (lookup st.id pins))
          (λ _. ensure-IsMore now later st sig f t n _ same late more)
          (λ _. ensure-IsMore now later st sig f t n v same late more))
