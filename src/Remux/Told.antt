-- ===== src/Remux/Told.antt =====
-- Starts of gateway/internal/remux/remux.go that were told to end stay told under any schedule.
use psychic_computing_machin.Common.{
  ℕ, suc, ◌<◌, ◌≡◌, true, some, List, [], ◌∷◌, All, arith, nat_eq, option_keeps,
}
use psychic_computing_machin.Common.Map.{lookup}
use psychic_computing_machin.Remux.{
  Phase, opening, Call, find_call, set_phase, remove_call, cancel_calls, cancel_all, Manager,
  new_manager, stop, Action, run,
}
use psychic_computing_machin.Remux.Tickets.{IsKept, run-OnCalls}

-- The newest call comes first and has the highest ticket, below the bound.
abbrev Falling : ℕ → List Call → Type 0
Falling n [] = Unit
Falling n (c ∷ cs) = (c.ticket < n) × Falling c.ticket cs

Falling-weaken : (n k : ℕ) (cs : List Call) → n < suc k → Falling n cs → Falling k cs
Falling-weaken n k [] below h = h
Falling-weaken n k (c ∷ cs) below (first, rest) = (omega arith, rest)

set_phase-Falling :
    (n t : ℕ) (ph : Phase) (cs : List Call) → Falling n cs → Falling n (set_phase t ph cs)
unfolding set_phase
set_phase-Falling n t ph [] h = h
set_phase-Falling n t ph (c ∷ cs) h = ground (arith, set_phase-Falling c.ticket t ph cs h.1)

remove_call-Falling : (n t : ℕ) (cs : List Call) → Falling n cs → Falling n (remove_call t cs)
unfolding remove_call
remove_call-Falling n t [] h = h
remove_call-Falling n t (c ∷ cs) h = ground (
  arith,
  Falling-weaken c.ticket n cs (omega (arith, h.0)) h.1,
  remove_call-Falling c.ticket t cs h.1,
)

cancel_calls-Falling : (n s : ℕ) (cs : List Call) → Falling n cs → Falling n (cancel_calls s cs)
unfolding cancel_calls
cancel_calls-Falling n s [] h = h
cancel_calls-Falling n s (c ∷ cs) h = ground (arith, cancel_calls-Falling c.ticket s cs h.1)

cancel_all-Falling : (n : ℕ) (cs : List Call) → Falling n cs → Falling n (cancel_all cs)
unfolding cancel_all
cancel_all-Falling n [] h = h
cancel_all-Falling n (c ∷ cs) h = ground (arith, cancel_all-Falling c.ticket cs h.1)

Falling-IsKept : IsKept Falling
Falling-IsKept = record {
  added = λ n s cs h. (omega arith, h);
  moved = set_phase-Falling;
  removed = remove_call-Falling;
  cancelled = cancel_calls-Falling;
  all_cancelled = cancel_all-Falling;
}

-- Every call with the ticket is cancelled, and no new call will have it.
abbrev Told : ℕ → ℕ → List Call → Type 0
Told t n cs = (t < n) × All (λ c. c.ticket ≡ t → c.cancelled ≡ true) cs

set_phase-Told :
    (t n u : ℕ) (ph : Phase) (cs : List Call) → Told t n cs → Told t n (set_phase u ph cs)
unfolding set_phase
set_phase-Told t n u ph [] h = h
set_phase-Told t n u ph (c ∷ cs) (l, (first, rest)) =
    ground (arith, set_phase-Told t n u ph cs (l, rest))

remove_call-Told : (t n u : ℕ) (cs : List Call) → Told t n cs → Told t n (remove_call u cs)
unfolding remove_call
remove_call-Told t n u [] h = h
remove_call-Told t n u (c ∷ cs) (l, (first, rest)) =
    ground (arith, remove_call-Told t n u cs (l, rest))

cancel_calls-Told : (t n s : ℕ) (cs : List Call) → Told t n cs → Told t n (cancel_calls s cs)
unfolding cancel_calls
cancel_calls-Told t n s [] h = h
cancel_calls-Told t n s (c ∷ cs) (l, (first, rest)) =
    ground (arith, cancel_calls-Told t n s cs (l, rest))

cancel_all-Told : (t n : ℕ) (cs : List Call) → Told t n cs → Told t n (cancel_all cs)
unfolding cancel_all
cancel_all-Told t n [] h = h
cancel_all-Told t n (c ∷ cs) (l, (first, rest)) = ground (arith, cancel_all-Told t n cs (l, rest))

Told-IsKept : (t : ℕ) → IsKept (Told t)
Told-IsKept t = record {
  added = λ n s cs (l, rest). (omega arith, (λ e. absurd (omega (arith, l, e)), rest));
  moved = set_phase-Told t;
  removed = remove_call-Told t;
  cancelled = cancel_calls-Told t;
  all_cancelled = cancel_all-Told t;
}

-- Calls below the ticket do not have it.
below_told :
    (t n s : ℕ) (cs : List Call)
    → Falling n cs
    → n < suc t
    → All (λ c. c.ticket ≡ t → c.cancelled ≡ true) (cancel_calls s cs)
unfolding cancel_calls
below_told t n s [] h l = tt
below_told t n s (c ∷ cs) (first, rest) l =
    ground (arith, below_told t c.ticket s cs rest (omega arith))

find_call-Told :
    (t n s : ℕ) (cs : List Call) {c : Call}
    → Falling n cs
    → find_call t cs ≡ some c
    → c.stream_id ≡ s
    → c.phase ≡ opening
    → Told t n (cancel_calls s cs)
unfolding find_call cancel_calls
find_call-Told t n s [] h f e o = ground arith
find_call-Told t n s (d ∷ cs) {c} (first, rest) f e o =
    ground (arith, find_call-Told t d.ticket s cs {c = c} rest, below_told t d.ticket s cs rest)

find_call-cancelled :
    (t n : ℕ) (cs : List Call) {d : Call}
    → Told t n cs
    → find_call t cs ≡ some d
    → d.cancelled ≡ true
unfolding find_call
find_call-cancelled t n [] h f = ground arith
find_call-cancelled t n (c ∷ cs) {d} (l, (first, rest)) f =
    ground (arith, find_call-cancelled t n cs {d = d} (l, rest))

stop-Told :
    (t s : ℕ) (m : Manager)
    → Told t m.next_ticket (cancel_calls s m.calls)
    → Told t (stop s m).next_ticket (stop s m).calls
unfolding stop
stop-Told t s m h =
    option_keeps (λ (n : Manager). Told t n.next_ticket n.calls) (lookup s m.sessions) (λ _. h)
      (λ p _. h)

-- From a new manager, a call of the stream that is opening when the stream is stopped is cancelled
-- in every later state that still has it.
pub stop_told :
    (cap t s : ℕ) (before after : List Action) {c d : Call}
    → find_call t (run before (new_manager cap)).calls ≡ some c
    → c.stream_id ≡ s
    → c.phase ≡ opening
    → find_call t (run after (stop s (run before (new_manager cap)))).calls ≡ some d
    → d.cancelled ≡ true
stop_told cap t s before after {c} {d} f e o g =
    let m = run before (new_manager cap) in
    let falling = run-OnCalls Falling-IsKept before (new_manager cap) (unfold new_manager in tt) in
    let told = stop-Told t s m (find_call-Told t m.next_ticket s m.calls {c = c} falling f e o) in
    find_call-cancelled t _ _ {d = d} (run-OnCalls (Told-IsKept t) after (stop s m) told) g
