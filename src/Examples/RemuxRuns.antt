-- ===== src/Examples/RemuxRuns.antt =====
-- Runs of the manager of gateway/internal/remux/remux.go.
use psychic_computing_machin.Common.{
  ℕ, ◌+◌, ◌≤◌, ◌≡◌, ◌↔◌, ◌⊎◌, refl, Bool, true, false, some, List, [], ◌∷◌, nat_eq, err,
}
use psychic_computing_machin.Common.Text.{Bytes, ascii}
use psychic_computing_machin.Common.Map.{lookup, insert, erase}
use psychic_computing_machin.Remux.{
  Manager, new_manager, Action, begin_call, commit_call, unlist_call, run, step, opened, Call,
  opening, find_call, set_phase, unlist_phase, cancel_calls, stop, begin, commit, fail,
  start_cancelled, reap_idle, get_path, exposed_name, second, idle_time,
}
use psychic_computing_machin.Remux.Registry.{IsRegistry}
use psychic_computing_machin.Remux.Agreement.{run-IsRegistry}
use psychic_computing_machin.Remux.Slots.{SlotsCounted, run-SlotsCounted}
use psychic_computing_machin.Remux.Reaping.{reap_idle_keeps}
use psychic_computing_machin.Remux.Ending.{stop_refuses_start}
use psychic_computing_machin.Remux.Paths.{get_path_confined}

abbrev no_playlist : Bytes → Bool
no_playlist _ = false

-- Stream 7 is launched as process 0, and a start of stream 8 is under way.
abbrev busy : List Action
busy =
    begin_call no_playlist 5 7 (ascii "sig")
    ∷ commit_call 6 0 (ascii "sig") (opened (ascii "ab") (ascii "/tmp/x") true)
    ∷ unlist_call 0
    ∷ begin_call no_playlist 7 8 (ascii "sig")
    ∷ []

abbrev busy_manager : Manager
busy_manager = run busy (new_manager 2)

run-SlotsCounted_example : SlotsCounted 2 (run busy (new_manager 2))
run-SlotsCounted_example = run-SlotsCounted 2 busy

run-IsRegistry_example : IsRegistry (run busy (new_manager 2))
run-IsRegistry_example = run-IsRegistry 2 busy

busy_slots : (busy_manager.slots ≡ 2) × (lookup 7 busy_manager.sessions ≡ some 0)
unfolding run step lookup new_manager begin commit insert erase find_call set_phase unlist_phase
busy_slots = (refl, refl)

reap_idle_keeps_example : (lookup 7 (reap_idle second busy_manager).sessions ≡ some 0) ↔ (
    (lookup 7 busy_manager.sessions ≡ some 0)
    × (((busy_manager.heap 0).pinned ≡ true)
        ⊎ (second ≤ (busy_manager.heap 0).last_used + idle_time)))
reap_idle_keeps_example = reap_idle_keeps second 7 0 busy_manager (run-IsRegistry 2 busy)

abbrev early : Call
early = record { ticket = 1; stream_id = 8; cancelled = false; phase = opening }

abbrev late : Call
late = record { ticket = 1; stream_id = 8; cancelled = true; phase = opening }

-- After the stop another start of the stream begins.
abbrev restart : List Action
restart = begin_call no_playlist 8 8 (ascii "sig") ∷ []

stop_refuses_start_example :
    commit 9 late
      (ascii "sig")
      (opened (ascii "cd") (ascii "/tmp/y") true)
      (run restart (stop 8 (run busy (new_manager 3))))
    ≡ (fail late (run restart (stop 8 (run busy (new_manager 3)))), err start_cancelled)
unfolding run step new_manager begin commit insert erase lookup find_call set_phase unlist_phase
    cancel_calls stop
stop_refuses_start_example =
    stop_refuses_start 3 8 1 9 busy restart (ascii "sig") (ascii "cd") (ascii "/tmp/y") true early
      late refl refl refl refl

get_path_confined_example :
    (ascii "index.m3u8" ≡ ascii "index.m3u8")
    × (exposed_name (ascii "index.m3u8") ≡ true)
    × (p : ℕ) × (lookup 7 busy_manager.sessions ≡ some p)
    × ((busy_manager.heap p).id ≡ ascii "ab")
    × ((busy_manager.heap p).dir ≡ ascii "/tmp/x")
unfolding run step new_manager begin commit insert erase lookup find_call set_phase unlist_phase
    get_path
get_path_confined_example =
    get_path_confined 9 7 (ascii "ab") (ascii "index.m3u8") (ascii "/tmp/x") (ascii "index.m3u8")
      busy_manager (run-IsRegistry 2 busy) refl
