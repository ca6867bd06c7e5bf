-- ===== src/Remux/State.antt =====
-- Sessions and the manager of gateway/internal/remux/remux.go. Sessions are shared pointers in the
-- source, so they live in a heap and the two maps hold addresses.
use psychic_computing_machin.Common.{
  ℕ, ◌*◌, Bool, true, false, List, [], if◌then◌else◌, ◌==◌, nat_eq, list_eq,
}
use psychic_computing_machin.Common.Text.{Bytes}
use psychic_computing_machin.Common.Map.{Map, erase}
use psychic_computing_machin.Remux.Calls.{Call}

abbrev pub second : ℕ
second = 1000000000

abbrev pub idle_time : ℕ
idle_time = 90 * second

pub record Session : Type 0 where
  pub id : Bytes
  pub stream_id : ℕ
  pub signature : Bytes
  pub dir : Bytes
  pub last_used : ℕ
  pub pinned : Bool
  pub cancelled : Bool  -- `cancel` was called: the process is told to end
  pub done : Bool  -- the channel `done` is closed

pub record Manager : Type 0 where
  pub sessions : Map ℕ ℕ
  pub by_id : Map Bytes ℕ
  pub heap : ℕ → Session
  pub next : ℕ
  pub calls : List Call  -- the `Start` calls that have reserved a slot and not returned
  pub next_ticket : ℕ
  pub running : List ℕ  -- the processes whose `watch` has not ended
  pub closed : Bool
  pub slots : ℕ
  pub cap : ℕ

abbrev pub no_session : Session
no_session = record {
  id = [];
  stream_id = 0;
  signature = [];
  dir = [];
  last_used = 0;
  pinned = false;
  cancelled = true;
  done = true;
}

unfoldable pub new_manager : ℕ → Manager
new_manager cap = record {
  sessions = [];
  by_id = [];
  heap = λ _. no_session;
  next = 0;
  calls = [];
  next_ticket = 0;
  running = [];
  closed = false;
  slots = 0;
  cap = cap;
}

-- Assignment through a pointer.
unfoldable pub write : (ℕ → Session) → ℕ → Session → ℕ → Session
write heap p s q = if q == p then s else heap q

unfoldable pub touch : ℕ → ℕ → Manager → Manager
unfolding write
touch now p m = record m { heap = write m.heap p (record (m.heap p) { last_used = now }) }

-- Removing the directory once the process has ended is left out.
unfoldable pub stop_locked : ℕ → Manager → Manager
unfolding write
stop_locked p m =
    let s = m.heap p in
    record m {
      sessions = erase s.stream_id m.sessions;
      by_id = erase s.id m.by_id;
      heap = write m.heap p (record s { cancelled = true });
    }
