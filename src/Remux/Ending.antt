-- ===== src/Remux/Ending.antt =====
-- What `Stop` of gateway/internal/remux/remux.go ends, also of starts under way.
use psychic_computing_machin.Common.{ℕ, ◌≡◌, Bool, true, some, List, arith, nat_eq, list_eq, err}
use psychic_computing_machin.Common.Text.{Bytes}
use psychic_computing_machin.Remux.{
  opening, Call, find_call, Manager, new_manager, start_cancelled, opened, commit, stop, fail,
  Action, run,
}
use psychic_computing_machin.Remux.Told.{stop_told}

cancelled_refused :
    (now : ℕ) (c : Call) (signature id dir : Bytes) (ffmpeg : Bool) (m : Manager)
    → c.cancelled ≡ true
    → commit now c signature (opened id dir ffmpeg) m ≡ (fail c m, err start_cancelled)
unfolding commit
cancelled_refused now c signature id dir ffmpeg m e = ground arith

-- From a new manager, through any critical sections before the stop and after it: a start that was
-- opening the source of a stream when the stream was stopped is refused whenever it comes to the
-- lock, whatever it opened, and launches nothing.
pub stop_refuses_start :
    (cap s t now : ℕ) (before after : List Action) (signature id dir : Bytes) (ffmpeg : Bool)
    (c d : Call)
    → find_call t (run before (new_manager cap)).calls ≡ some c
    → c.stream_id ≡ s
    → c.phase ≡ opening
    → find_call t (run after (stop s (run before (new_manager cap)))).calls ≡ some d
    → commit now d signature
        (opened id dir ffmpeg)
        (run after (stop s (run before (new_manager cap))))
      ≡ (fail d (run after (stop s (run before (new_manager cap)))), err start_cancelled)
stop_refuses_start cap s t now before after signature id dir ffmpeg c d f e o g =
    cancelled_refused now d signature id dir ffmpeg
      (run after (stop s (run before (new_manager cap))))
      (stop_told cap t s before after {c = c} {d = d} f e o g)
