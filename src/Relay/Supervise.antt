-- ===== src/Relay/Supervise.antt =====
-- `reconcileAlwaysOn` of gateway/internal/gatewayhttp/alwayson.go over an interface of the session
-- manager. `startRelay` is one operation of it.
use psychic_computing_machin.Common.{
  ℕ, ◌-◌, Bool, true, false, not, Option, none, some, List, [], ◌∷◌, length, ltb, leb, nat_eq,
  if◌then◌else◌,
}
use psychic_computing_machin.Common.Text.{Bytes}
use psychic_computing_machin.Common.Map.{Map, lookup, insert, erase}
use psychic_computing_machin.Gateway.{Stream}
use psychic_computing_machin.Relay.Backoff.{RelayState, new_relay, note_failure, min_healthy}

-- What the supervisor uses of `remux.Manager`: `Slots`, `Pinned`, `SetPinned`, `Stop`, `Existing`
-- and a start that waits for the first playlist and pins the session, with its success.
pub record Sessions : Type 1 where
  pub State : Type 0
  pub slots : ℕ
  pub pinned : State → Map ℕ Bool
  pub pin_relay : ℕ → Bool → State → State
  pub stop_relay : ℕ → State → State
  pub find_existing : ℕ → Bytes → State → State × Bool
  pub start_relay : Stream → Bytes → State → State × Bool

pub data RuntimeState : Type 0 where
  no_slot starting running waiting : RuntimeState

pub data Event : Type 0 where
  reported : ℕ → RuntimeState → Event
  attempted : ℕ → Event

-- The limit leaves a slot to viewers on the control gateway.
unfoldable pub max_relays : Bool → ℕ → ℕ
max_relays relay_only slots =
    let limit = if relay_only then slots else slots - 1 in if ltb limit 1 then 1 else limit

-- The first streams up to the limit, and those that are left without a slot.
unfoldable pub choose : ℕ → List Stream → Map ℕ Stream → Map ℕ Stream × List ℕ
choose limit [] want = (want, [])
choose limit (st ∷ sts) want =
    if leb limit (length want)
    then (let (w, left) = choose limit sts want in (w, st.id ∷ left))
    else choose limit sts (insert st.id st want)

abbrev pub relay_of : Option RelayState → RelayState
relay_of none = new_relay
relay_of (some st) = st

abbrev pub is_healthy : ℕ → Option ℕ → Bool
is_healthy now none = false
is_healthy now (some since) = leb min_healthy (now - since)

abbrev pub died_early : ℕ → Option ℕ → Bool
died_early now none = false
died_early now (some since) = ltb (now - since) min_healthy

abbrev pub dead : Option Bool → Bool
dead none = false
dead (some alive) = not alive

-- A stream that is visited, with the times before and after an attempt to start it.
pub record Visit : Type 0 where
  pub id : ℕ
  pub now : ℕ
  pub later : ℕ

module _ (r : Sessions) where
  open r use {State, slots, pinned, pin_relay, stop_relay, find_existing, start_relay}

  -- The events are the calls of `SetRuntime` and the attempts to start, the last one first.
  pub record Supervisor : Type 0 where
    pub sessions : State
    pub relays : Map ℕ RelayState
    pub events : List Event

  abbrev pub report : ℕ → RuntimeState → Supervisor → Supervisor
  report id state v = record v { events = reported id state ∷ v.events }

  abbrev pub keep : ℕ → RelayState → Supervisor → Supervisor
  keep id st v = record v { relays = insert id st v.relays }

  -- A new attempt, which ends at the second time.
  unfoldable pub attempt : ℕ → Stream → Bytes → RelayState → Supervisor → Supervisor
  unfolding note_failure
  attempt later st sig rs v =
      let (s, started) = start_relay st sig v.sessions in
      let v' = record v {
        sessions = s;
        events = attempted st.id ∷ reported st.id starting ∷ v.events;
      } in
      if started
      then report st.id running
          (keep st.id (record rs { next_try = 0; running_since = some later }) v')
      else report st.id waiting (keep st.id (note_failure later rs) v')

  -- A wanted stream whose relay has not just died.
  unfoldable pub ensure : ℕ → ℕ → Stream → Bytes → RelayState → Supervisor → Supervisor
  unfolding attempt
  ensure now later st sig rs v =
      let (s, found) = find_existing st.id sig v.sessions in
      if found
      then report st.id running (
          keep st.id
            (if is_healthy now rs.running_since
              then record rs { failures = 0; next_try = 0 }
              else rs)
            (record v { sessions = pin_relay st.id true s }))
      else if ltb now rs.next_try
      then keep st.id rs (record v { sessions = s })
      else attempt later st sig rs (record v { sessions = s })

  -- The body of the second loop, with the sessions that were pinned when it began.
  unfoldable pub visit : Map ℕ Bool → ℕ → ℕ → Stream → Bytes → Supervisor → Supervisor
  unfolding ensure note_failure
  visit pins now later st sig v =
      let rs = relay_of (lookup st.id v.relays) in
      if dead (lookup st.id pins)
      then (let v' = record v { sessions = stop_relay st.id v.sessions } in
          if died_early now rs.running_since
          then report st.id waiting (keep st.id (note_failure now rs) v')
          else ensure now later st sig (record rs { running_since = none }) v')
      else ensure now later st sig rs v

  -- The first loop: sessions that are pinned and no longer wanted.
  unfoldable pub unpin : Map ℕ Stream → Map ℕ Bool → Supervisor → Supervisor
  unpin want [] v = v
  unpin want ((id, _) ∷ pins) v = elim (lookup id want) [
    | some _ ↦ unpin want pins v
    | none ↦
        unpin want pins
          (record v { sessions = pin_relay id false v.sessions; relays = erase id v.relays })
  ]

  -- The visits are in the order in which the program goes through the map, which is arbitrary, and
  -- end early where the context is cancelled.
  unfoldable pub visits :
      (Stream → Bytes) → Map ℕ Stream → Map ℕ Bool → List Visit → Supervisor → Supervisor
  unfolding visit
  visits signature want pins [] v = v
  visits signature want pins (x ∷ xs) v = elim (lookup x.id want) [
    | none ↦ visits signature want pins xs v
    | some st ↦ visits signature want pins xs (visit pins x.now x.later st (signature st) v)
  ]

  abbrev pub report_all : List ℕ → Supervisor → Supervisor
  report_all [] v = v
  report_all (id ∷ ids) v = report_all ids (report id no_slot v)

  -- `ClearRuntime`, which keeps the rows of `streams`, is left to the store.
  unfoldable pub reconcile :
      (Stream → Bytes) → Bool → List Stream → List Visit → Supervisor → Supervisor
  unfolding choose unpin visits max_relays
  reconcile signature relay_only streams order v =
      let (want, left) = choose (max_relays relay_only slots) streams [] in
      let v' = report_all left v in
      let pins = pinned v'.sessions in visits signature want pins order (unpin want pins v')

  -- A turn of the loop: what else happens to the sessions before it, the streams unless loading them
  -- fails, and the visits.
  pub record Turn : Type 0 where
    pub before : State → State
    pub streams : Option (List Stream)
    pub order : List Visit

  unfoldable pub run_always_on : (Stream → Bytes) → Bool → List Turn → Supervisor → Supervisor
  unfolding reconcile
  run_always_on signature relay_only [] v = v
  run_always_on signature relay_only (x ∷ xs) v =
      let v' = record v { sessions = x.before v.sessions } in
      elim x.streams [
        | none ↦ run_always_on signature relay_only xs v'
        | some sts ↦
            run_always_on signature relay_only xs (reconcile signature relay_only sts x.order v')
      ]
