-- ===== src/Remux/Access.antt =====
-- The methods of the manager of gateway/internal/remux/remux.go but `Start`, each a critical
-- section, and the goroutine `watch`.
use psychic_computing_machin.Common.{
  ℕ, ◌-◌, Bool, true, false, ◌&&◌, not, Option, none, some, List, [], ◌∷◌, ltb, if◌then◌else◌, ◌==◌,
  nat_eq, list_eq, contains, remove_first,
}
use psychic_computing_machin.Common.Text.{Bytes}
use psychic_computing_machin.Common.Map.{Map, lookup}
use psychic_computing_machin.Remux.Names.{exposed_name}
use psychic_computing_machin.Remux.Calls.{cancel_calls, cancel_all, launched_by, launched_by_any}
use psychic_computing_machin.Remux.State.{Session, Manager, write, touch, stop_locked, idle_time}

-- The process of a session ended. The source gives the slot back and then closes `done`, without the
-- lock; here both are one step.
unfoldable pub watch : ℕ → Manager → Manager
unfolding write
watch p m =
    if contains p m.running
    then record m {
      heap = write m.heap p (record (m.heap p) { cancelled = true; done = true });
      running = remove_first p m.running;
      slots = m.slots - 1;
    }
    else m

-- `cancel` of a pending start that has launched its process cancels that process.
unfoldable pub cancel_launched : List ℕ → (ℕ → Session) → ℕ → Session
cancel_launched ps heap q = if contains q ps then record (heap q) { cancelled = true } else heap q

-- The loop of `Stop` over the stream's pending starts.
unfoldable pub cancel_pending : ℕ → Manager → Manager
unfolding cancel_launched
cancel_pending stream_id m = record m {
  calls = cancel_calls stream_id m.calls;
  heap = cancel_launched (launched_by stream_id m.calls) m.heap;
}

unfoldable pub stop : ℕ → Manager → Manager
unfolding stop_locked cancel_pending
stop stream_id m =
    let m' = cancel_pending stream_id m in
    elim (lookup stream_id m'.sessions) [ none ↦ m' | some p ↦ stop_locked p m' ]

unfoldable pub set_pinned : ℕ → ℕ → Bool → Manager → Manager × Bool
unfolding write
set_pinned now stream_id pinned m = elim (lookup stream_id m.sessions) [
  | none ↦ (m, false)
  | some p ↦ (
    record m { heap = write m.heap p (record (m.heap p) { pinned = pinned; last_used = now }) },
    true,
  )
]

-- `stat` says whether the directory holds `index.m3u8`.
unfoldable pub existing : (Bytes → Bool) → ℕ → ℕ → Bytes → Manager → Manager × Option ℕ
unfolding touch stop_locked
existing stat now stream_id signature m = elim (lookup stream_id m.sessions) [
  | none ↦ (m, none)
  | some p ↦
      let s = m.heap p in
      if not (s.signature == signature)
      then (m, none)
      else if s.done && not (stat s.dir)
      then (stop_locked p m, none)
      else (touch now p m, some p)
]

unfoldable pub current : ℕ → Manager → Option ℕ
current stream_id m = lookup stream_id m.sessions

-- The path is the session's directory and the name.
unfoldable pub get_path : ℕ → ℕ → Bytes → Bytes → Manager → Manager × Option (Bytes × Bytes)
unfolding exposed_name touch
get_path now stream_id id name m =
    if not (exposed_name name) then (m, none) else elim (lookup id m.by_id) [
      | none ↦ (m, none)
      | some p ↦
          if (m.heap p).stream_id == stream_id
          then (touch now p m, some ((m.heap p).dir, name))
          else (m, none)
    ]

-- `for _, s := range m.sessions`: the keys are visited in turn, with the map's present value.
unfoldable pub keys : Map ℕ ℕ → List ℕ
keys [] = []
keys ((k, _) ∷ m) = k ∷ keys m

unfoldable pub stop_key : ℕ → Manager → Manager
stop_key k m = elim (lookup k m.sessions) [ none ↦ m | some p ↦ stop_locked p m ]

unfoldable pub stop_keys : List ℕ → Manager → Manager
stop_keys [] m = m
stop_keys (k ∷ ks) m = stop_keys ks (stop_key k m)

-- `close(m.closed)`, and the loop of `Close` over all pending starts.
unfoldable pub cancel_every : Manager → Manager
unfolding cancel_launched
cancel_every m = record m {
  closed = true;
  calls = cancel_all m.calls;
  heap = cancel_launched (launched_by_any m.calls) m.heap;
}

unfoldable pub close : Manager → Manager
unfolding stop_keys keys cancel_every
close m = stop_keys (keys m.sessions) (cancel_every m)

unfoldable pub is_idle : ℕ → Session → Bool
is_idle now s = not s.pinned && ltb idle_time (now - s.last_used)

-- The body of the loop of `ReapIdle`.
unfoldable pub reap_key : ℕ → ℕ → Manager → Manager
reap_key now k m = elim (lookup k m.sessions) [
  | none ↦ m
  | some p ↦ if is_idle now (m.heap p) then stop_locked p m else m
]

unfoldable pub reap_keys : ℕ → List ℕ → Manager → Manager
reap_keys now [] m = m
reap_keys now (k ∷ ks) m = reap_keys now ks (reap_key now k m)

unfoldable pub reap_idle : ℕ → Manager → Manager
unfolding reap_keys keys
reap_idle now m = reap_keys now (keys m.sessions) m
