-- ===== src/Remux/Start.antt =====
-- `Start` of gateway/internal/remux/remux.go, cut at its locks: `begin`, `commit`, and the deferred
-- `unlist_phase` and `release_phase`. Each piece is one critical section.
use psychic_computing_machin.Common.{
  ℕ, suc, ◌+◌, ◌-◌, Bool, false, none, some, ◌∷◌, leb, if◌then◌else◌, Result, ok, err, ◌==◌, nat_eq,
  list_eq,
}
use psychic_computing_machin.Common.Text.{Bytes}
use psychic_computing_machin.Common.Map.{lookup, insert}
use psychic_computing_machin.Remux.Calls.{
  opening, launched, failing, releasing, Call, set_phase, remove_call,
}
use psychic_computing_machin.Remux.State.{Manager, write, touch, stop_locked}

pub data StartError : Type 0 where
  manager_closed session_limit start_cancelled no_body : StartError
  random_failed no_directory open_failed ffmpeg_failed : StartError

-- How the first critical section of `Start` ends.
pub data Begin : Type 0 where
  refused : StartError → Begin
  reused : ℕ → Begin
  reserved : ℕ → Begin

-- `m.slots <- struct{}{}` with a default branch, and the entry in `pending`.
unfoldable pub reserve : ℕ → Manager → Manager × Begin
reserve stream_id m = if leb m.cap m.slots then (m, refused session_limit) else (
  record m {
    slots = m.slots + 1;
    calls =
        record { ticket = m.next_ticket; stream_id = stream_id; cancelled = false; phase = opening }
        ∷ m.calls;
    next_ticket = suc m.next_ticket;
  },
  reserved m.next_ticket,
)

-- `stat` says whether the directory holds `index.m3u8`.
unfoldable pub begin : (Bytes → Bool) → ℕ → ℕ → Bytes → Manager → Manager × Begin
unfolding reserve touch stop_locked
begin stat now stream_id signature m =
    if m.closed then (m, refused manager_closed) else elim (lookup stream_id m.sessions) [
      | none ↦ reserve stream_id m
      | some p ↦
          let s = m.heap p in
          if s.signature == signature
          then if stat s.dir
            then (touch now p m, reused p)
            else if s.done
            then reserve stream_id (stop_locked p m)
            else (touch now p m, reused p)
          else reserve stream_id (stop_locked p m)
    ]

-- What happens between the two critical sections of `Start`, and whether FFmpeg can be started.
pub data Opened : Type 0 where
  not_opened : StartError → Opened
  opened : Bytes → Bytes → Bool → Opened

-- `cmd.Start` succeeded: the slot passes from the call to the process.
unfoldable pub launch : ℕ → Call → Bytes → Bytes → Bytes → Manager → Manager
unfolding write
launch now c signature id dir m = record m {
  heap = write m.heap m.next (record {
    id = id;
    stream_id = c.stream_id;
    signature = signature;
    dir = dir;
    last_used = now;
    pinned = false;
    cancelled = false;
    done = false;
  });
  sessions = insert c.stream_id m.next m.sessions;
  by_id = insert id m.next m.by_id;
  next = suc m.next;
  running = m.next ∷ m.running;
  calls = set_phase c.ticket (launched m.next) m.calls;
}

unfoldable pub fail : Call → Manager → Manager
fail c m = record m { calls = set_phase c.ticket failing m.calls }

-- The second critical section of `Start`. Where the context is cancelled and the manager closed,
-- `select` may pick either error.
unfoldable pub commit : ℕ → Call → Bytes → Opened → Manager → Manager × Result StartError ℕ
unfolding launch fail touch
commit now c signature (not_opened e) m = (fail c m, err e)
commit now c signature (opened id dir ffmpeg) m =
    if c.cancelled
    then (fail c m, err start_cancelled)
    else if m.closed
    then (fail c m, err manager_closed)
    else elim (lookup c.stream_id m.sessions) [
      | some p ↦ (fail c (touch now p m), ok p)
      | none ↦
          if ffmpeg
          then (launch now c signature id dir m, ok m.next)
          else (fail c m, err ffmpeg_failed)
    ]

-- The deferred function of `Start`: first `pending` under the lock, then the slot.
unfoldable pub unlist_phase : Call → Manager → Manager
unlist_phase c m = elim c.phase [
  | launched p ↦ record m { calls = remove_call c.ticket m.calls }
  | failing ↦ record m { calls = set_phase c.ticket releasing m.calls }
  | opening ↦ m
  | releasing ↦ m
]

unfoldable pub release_phase : Call → Manager → Manager
release_phase c m = elim c.phase [
  | releasing ↦ record m { calls = remove_call c.ticket m.calls; slots = m.slots - 1 }
  | launched p ↦ m
  | failing ↦ m
  | opening ↦ m
]
