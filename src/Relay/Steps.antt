-- ===== src/Relay/Steps.antt =====
-- What the visits of gateway/internal/gatewayhttp/alwayson.go keep: a predicate that each change of
-- the supervisor's state keeps is kept by all of them.
use psychic_computing_machin.Common.{
  ℕ, ◌≡◌, Bool, false, none, List, [], ◌∷◌, ltb, if_keeps, option_keeps, nat_eq,
}
use psychic_computing_machin.Common.Text.{Bytes}
use psychic_computing_machin.Common.Map.{Map, lookup, erase}
use psychic_computing_machin.Gateway.{Stream}
use psychic_computing_machin.Relay.{
  Sessions, RelayState, RuntimeState, no_slot, starting, reported, attempted, Supervisor, relay_of,
  died_early, dead, report, keep, attempt, ensure, visit, unpin, report_all,
}

module _ (r : Sessions) where
  open r use {State, start_relay, find_existing, stop_relay, pin_relay}

  -- A predicate that no change at the stream breaks.
  pub record IsStable (Q : Supervisor r → Type 0) (id : ℕ) : Type 0 where
    pub moved : (s : State) (v : Supervisor r) → Q v → Q (record v { sessions = s })
    pub kept : (st : RelayState) (v : Supervisor r) → Q v → Q (keep r id st v)
    pub told : (s : RuntimeState) (v : Supervisor r) → Q v → Q (report r id s v)
    pub begun :
        (s : State) (v : Supervisor r)
        → Q v
        → Q (record v { sessions = s; events = attempted id ∷ reported id starting ∷ v.events })

  module _ (Q : Supervisor r → Type 0) where
    pub attempt_keeps :
        (later : ℕ) (st : Stream) (sig : Bytes) (rs : RelayState) (v : Supervisor r)
        → IsStable Q st.id
        → Q v
        → Q (attempt r later st sig rs v)
    unfolding attempt
    attempt_keeps later st sig rs v q h =
        let s = start_relay st sig v.sessions in
        let h' = q.begun s.0 v h in
        if_keeps Q s.1 (λ _. q.told _ _ (q.kept _ _ h')) (λ _. q.told _ _ (q.kept _ _ h'))

    pub ensure_keeps :
        (now later : ℕ) (st : Stream) (sig : Bytes) (rs : RelayState) (v : Supervisor r)
        → IsStable Q st.id
        → Q v
        → Q (ensure r now later st sig rs v)
    unfolding ensure
    ensure_keeps now later st sig rs v q h =
        let s = find_existing st.id sig v.sessions in
        if_keeps Q s.1 (λ _. q.told _ _ (q.kept _ _ (q.moved _ v h)))
          (λ _.
            if_keeps Q (ltb now rs.next_try) (λ _. q.kept _ _ (q.moved _ v h))
              (λ _. attempt_keeps later st sig rs _ q (q.moved s.0 v h)))

    pub visit_keeps :
        (pins : Map ℕ Bool) (now later : ℕ) (st : Stream) (sig : Bytes) (v : Supervisor r)
        → IsStable Q st.id
        → Q v
        → Q (visit r pins now later st sig v)
    unfolding visit
    visit_keeps pins now later st sig v q h =
        let rs = relay_of (lookup st.id v.relays) in
        let alone : Supervisor r = record v { sessions = stop_relay st.id v.sessions } in
        let h' = q.moved (stop_relay st.id v.sessions) v h in
        if_keeps Q (dead (lookup st.id pins))
          (λ _.
            if_keeps Q (died_early now rs.running_since) (λ _. q.told _ _ (q.kept _ _ h'))
              (λ _. ensure_keeps now later st sig (record rs { running_since = none }) alone q h'))
          (λ _. ensure_keeps now later st sig rs v q h)

    pub report_all_keeps :
        (ids : List ℕ) (v : Supervisor r)
        → ((id : ℕ) (v : Supervisor r) → Q v → Q (report r id no_slot v))
        → Q v
        → Q (report_all r ids v)
    report_all_keeps [] v told h = h
    report_all_keeps (id ∷ ids) v told h =
        report_all_keeps ids (report r id no_slot v) told (told id v h)

    -- What a stream that is no longer wanted leaves.
    pub unpin_keeps :
        (want : Map ℕ Stream) (pins : Map ℕ Bool) (v : Supervisor r)
        → ((id : ℕ) (s : State) (v : Supervisor r)
            → lookup id want ≡ none
            → Q v
            → Q (record v { sessions = s; relays = erase id v.relays }))
        → Q v
        → Q (unpin r want pins v)
    unfolding unpin
    unpin_keeps want [] v dropped h = h
    unpin_keeps want ((id, alive) ∷ pins) v dropped h =
        option_keeps Q (lookup id want)
          (λ gone.
            unpin_keeps want pins _ dropped (dropped id (pin_relay id false v.sessions) v gone h))
          (λ _ _. unpin_keeps want pins v dropped h)
