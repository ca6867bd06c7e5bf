-- ===== src/Remux/Schedule.antt =====
-- The goroutines that share a manager of gateway/internal/remux/remux.go: any sequence of critical
-- sections. A section of a call that is not in the phase for it does nothing.
use psychic_computing_machin.Common.{ℕ, Bool, none, some, List, [], ◌∷◌, nat_eq, list_eq}
use psychic_computing_machin.Common.Text.{Bytes}
use psychic_computing_machin.Remux.Calls.{opening, launched, failing, releasing, Call, find_call}
use psychic_computing_machin.Remux.State.{Manager}
use psychic_computing_machin.Remux.Start.{Opened, begin, commit, unlist_phase, release_phase}
use psychic_computing_machin.Remux.Access.{
  watch, stop, set_pinned, existing, get_path, close, reap_idle,
}

pub data Action : Type 0 where
  begin_call : (Bytes → Bool) → ℕ → ℕ → Bytes → Action
  commit_call : ℕ → ℕ → Bytes → Opened → Action
  unlist_call : ℕ → Action
  release_call : ℕ → Action
  process_ended : ℕ → Action
  stop_stream : ℕ → Action
  pin_stream : ℕ → ℕ → Bool → Action
  use_existing : (Bytes → Bool) → ℕ → ℕ → Bytes → Action
  use_path : ℕ → ℕ → Bytes → Bytes → Action
  reap : ℕ → Action
  close_manager : Action

unfoldable pub commit_phase : ℕ → Call → Bytes → Opened → Manager → Manager
commit_phase now c signature o m = elim c.phase [
  | opening ↦ (commit now c signature o m).0
  | launched p ↦ m
  | failing ↦ m
  | releasing ↦ m
]

-- The section `f` of the call with the ticket, if it is under way.
unfoldable pub on_call : ℕ → (Call → Manager → Manager) → Manager → Manager
on_call t f m = elim (find_call t m.calls) [ none ↦ m | some c ↦ f c m ]

unfoldable pub step : Action → Manager → Manager
unfolding on_call commit_phase
step (begin_call stat now stream_id signature) m = (begin stat now stream_id signature m).0
step (commit_call now t signature o) m = on_call t (λ c. commit_phase now c signature o) m
step (unlist_call t) m = on_call t unlist_phase m
step (release_call t) m = on_call t release_phase m
step (process_ended p) m = watch p m
step (stop_stream stream_id) m = stop stream_id m
step (pin_stream now stream_id pinned) m = (set_pinned now stream_id pinned m).0
step (use_existing stat now stream_id signature) m = (existing stat now stream_id signature m).0
step (use_path now stream_id id name) m = (get_path now stream_id id name m).0
step (reap now) m = reap_idle now m
step close_manager m = close m

unfoldable pub run : List Action → Manager → Manager
run [] m = m
run (a ∷ rest) m = run rest (step a m)
