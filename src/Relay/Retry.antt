-- ===== src/Relay/Retry.antt =====
-- When the loop of gateway/internal/gatewayhttp/alwayson.go starts a relay that failed again.
use psychic_computing_machin.Common.{
  ℕ, suc, ◌+◌, ◌≤◌, ◌≡◌, Bool, true, false, List, nat_eq, arith, inl, All, ◌⊎◌,
}
use psychic_computing_machin.Common.Text.{Bytes}
use psychic_computing_machin.Common.Map.{lookup-insert}
use psychic_computing_machin.Gateway.{Stream}
use psychic_computing_machin.Relay.{
  Sessions, RelayState, Supervisor, attempt, Visit, Turn, reconcile, run_always_on,
}
use psychic_computing_machin.Relay.Delay.{doubled, backoff-doubled}
use psychic_computing_machin.Relay.Waiting.{IsMore, sightings, attempts, waiting_relay, IsWaiting}
use psychic_computing_machin.Relay.Keeping.{IsEarly, run-IsWaiting}
use psychic_computing_machin.Relay.Trying.{
  Attempted, reconcile_due, run-Attempted, some_due, HasSlot, IsWantedIn,
}

module _ (r : Sessions) (signature : Stream → Bytes) where
  open r use {start_relay}

  failed-IsWaiting :
      (later : ℕ) (st : Stream) (text : Bytes) (rs : RelayState) (v : Supervisor r)
      → (start_relay st text v.sessions).1 ≡ false
      → IsWaiting st.id
          (suc rs.failures)
          (later + doubled rs.failures)
          (suc (attempts st.id v.events))
          (attempt r later st text rs v)
  unfolding attempt attempts
  failed-IsWaiting later st text rs v failed =
      rw (failed, backoff-doubled rs.failures)
        (record {
          waits =
              rw
                (lookup-insert st.id st.id
                  (waiting_relay (suc rs.failures) (later + doubled rs.failures)) v.relays)
                (ground arith);
          counted = ground arith;
        })

  -- After a start that failed, when the relay had failed a number of times before, the loop attempts
  -- no start for the stream before the wait for that number is over: whatever else happens to the
  -- sessions, in every run of the loop whose visits begin earlier and in which the stream keeps its
  -- slot, the attempt that failed stays the last one.
  pub no_early_retry :
      (relay_only : Bool) (turns : List (Turn r)) (later : ℕ) (st : Stream) (text : Bytes)
      (rs : RelayState) (v : Supervisor r)
      → (start_relay st text v.sessions).1 ≡ false
      → All (IsEarly r signature st.id relay_only (later + doubled rs.failures)) turns
      → attempts st.id
          (run_always_on r signature relay_only turns (attempt r later st text rs v)).events
        ≡ suc (attempts st.id v.events)
  no_early_retry relay_only turns later st text rs v failed early = IsWaiting.counted (
      run-IsWaiting r signature st.id relay_only turns _ _ _ _ early
        (failed-IsWaiting later st text rs v failed))

  failed-IsMore :
      (later : ℕ) (st : Stream) (text : Bytes) (rs : RelayState) (v : Supervisor r)
      → (start_relay st text v.sessions).1 ≡ false
      → IsMore r st.id
          (suc (attempts st.id v.events + sightings st.id v.events))
          (attempt r later st text rs v)
  unfolding attempt attempts sightings
  failed-IsMore later st text rs v failed = rw failed (ground arith)

  one_grew : (a s a' s' : ℕ) → suc (suc (a + s)) ≤ a' + s' → (suc (suc a) ≤ a') ⊎ (suc s ≤ s')
  one_grew a s a' s' h = ground arith

  -- After a start that failed, the loop attempts a start of the stream again, or finds that it runs
  -- and reports so, at the latest in the first turn that visits the stream once the wait is over:
  -- whatever the sessions do, if in every turn until then the streams are loaded with the stream
  -- among those with a slot, or fail to load.
  pub retried :
      (relay_only : Bool) (turns : List (Turn r)) (sts : List Stream) (order : List Visit)
      (later : ℕ) (st : Stream) (text : Bytes) (rs : RelayState) (v : Supervisor r)
      → (start_relay st text v.sessions).1 ≡ false
      → All (IsWantedIn r signature st.id relay_only) turns
      → HasSlot r signature st.id relay_only sts
      → some_due st.id (later + doubled rs.failures) order ≡ true
      → (suc (suc (attempts st.id v.events))
          ≤ attempts st.id
              (reconcile r signature relay_only sts order
                (run_always_on r signature relay_only turns (attempt r later st text rs v))).events)
        ⊎ (suc (sightings st.id v.events)
            ≤ sightings st.id
                (reconcile r signature relay_only sts order (
                  run_always_on r signature relay_only turns
                    (attempt r later st text rs v))).events)
  unfolding Attempted
  retried relay_only turns sts order later st text rs v failed wanted here due = one_grew _ _ _ _ (
      reconcile_due r signature st.id relay_only sts _ _ _ _ _ order here due (
        run-Attempted r signature st.id relay_only turns _ _ _ _ _ wanted (
          inl
            (failed-IsWaiting later st text rs v failed, failed-IsMore later st text rs v failed))))
