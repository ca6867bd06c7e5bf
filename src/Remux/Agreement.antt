-- ===== src/Remux/Agreement.antt =====
-- Every critical section of gateway/internal/remux/remux.go keeps its maps in agreement.
use psychic_computing_machin.Common.{
  ℕ, refl, Bool, Option, List, arith, nat_eq, list_eq, if_keeps, option_keeps, ◌==◌, not, ◌&&◌, ◌-◌,
}
use psychic_computing_machin.Common.Text.{Bytes}
use psychic_computing_machin.Common.Map.{lookup, lookup-empty}
use psychic_computing_machin.Remux.{
  Phase, opening, launched, failing, releasing, Call, launched_by, launched_by_any, Session,
  Manager, new_manager, commit_phase, exposed_name, set_phase, remove_call, unlist_phase,
  release_phase, cancel_launched, cancel_pending, cancel_every, stop, set_pinned, existing,
  get_path, close, reap_idle, keys, Action, begin_call, commit_call, unlist_call, release_call,
  process_ended, stop_stream, pin_stream, use_existing, use_path, reap, close_manager, step, run,
}
use psychic_computing_machin.Remux.Rules.{
  on_call_keeps, run_keeps, stop_keys_keeps, reap_keys_keeps,
}
use psychic_computing_machin.Remux.Registry.{
  IsRegistry, Refreshes, refreshed-IsRegistry, write-Refreshes, stop_locked-IsRegistry,
}
use psychic_computing_machin.Remux.Launching.{
  touch-IsRegistry, begin-IsRegistry, relabel-IsRegistry, commit_phase-IsRegistry, watch-IsRegistry,
}

cancel_launched-Refreshes :
    (ps : List ℕ) (heap : ℕ → Session) (q : ℕ) → Refreshes (heap q) (cancel_launched ps heap q)
unfolding cancel_launched
cancel_launched-Refreshes ps heap q = ground arith

pub cancel_pending-IsRegistry :
    (s : ℕ) (m : Manager) → IsRegistry m → IsRegistry (cancel_pending s m)
unfolding cancel_pending
cancel_pending-IsRegistry s m h =
    relabel-IsRegistry (record m { heap = cancel_launched (launched_by s m.calls) m.heap }) _
      (refreshed-IsRegistry m _ (cancel_launched-Refreshes _ m.heap) h)

pub stop-IsRegistry : (s : ℕ) (m : Manager) → IsRegistry m → IsRegistry (stop s m)
unfolding stop
stop-IsRegistry s m h =
    let cancelled = cancel_pending-IsRegistry s m h in
    option_keeps IsRegistry (lookup s m.sessions) (λ _. cancelled)
      (λ p e. stop_locked-IsRegistry s p (cancel_pending s m) e cancelled)

pub cancel_every-IsRegistry : (m : Manager) → IsRegistry m → IsRegistry (cancel_every m)
unfolding cancel_every
cancel_every-IsRegistry m h =
    let kept =
      refreshed-IsRegistry m (cancel_launched (launched_by_any m.calls) m.heap)
        (cancel_launched-Refreshes (launched_by_any m.calls) m.heap) h in
    record { filed = kept.filed; named = kept.named; owned = kept.owned }

pub close-IsRegistry : (m : Manager) → IsRegistry m → IsRegistry (close m)
unfolding close
close-IsRegistry m h =
    stop_keys_keeps IsRegistry stop_locked-IsRegistry (keys m.sessions) (cancel_every m)
      (cancel_every-IsRegistry m h)

reap-IsRegistry : (now : ℕ) (m : Manager) → IsRegistry m → IsRegistry (reap_idle now m)
unfolding reap_idle
reap-IsRegistry now m = reap_keys_keeps IsRegistry stop_locked-IsRegistry now (keys m.sessions) m

set_pinned-IsRegistry :
    (now s : ℕ) (pinned : Bool) (m : Manager)
    → IsRegistry m
    → IsRegistry (set_pinned now s pinned m).0
unfolding set_pinned
set_pinned-IsRegistry now s pinned m h =
    option_keeps (λ (r : Manager × Bool). IsRegistry r.0) (lookup s m.sessions) (λ _. h)
      (λ p e. refreshed-IsRegistry m _ (write-Refreshes m.heap p _ (refl, refl, λ e. e)) h)

existing-IsRegistry :
    (stat : Bytes → Bool) (now s : ℕ) (signature : Bytes) (m : Manager)
    → IsRegistry m
    → IsRegistry (existing stat now s signature m).0
unfolding existing
existing-IsRegistry stat now s signature m h =
    option_keeps Q (lookup s m.sessions) (λ _. h)
      (λ p e.
        if_keeps Q (not ((m.heap p).signature == signature)) (λ _. h)
          (λ _.
            if_keeps Q ((m.heap p).done && not (stat (m.heap p).dir))
              (λ _. stop_locked-IsRegistry s p m e h) (λ _. touch-IsRegistry now p m h)))
  where
    Q : Manager × Option ℕ → Type 0
    Q r = IsRegistry r.0

get_path-IsRegistry :
    (now s : ℕ) (id name : Bytes) (m : Manager)
    → IsRegistry m
    → IsRegistry (get_path now s id name m).0
unfolding get_path
get_path-IsRegistry now s id name m h =
    if_keeps Q (not (exposed_name name)) (λ _. h)
      (λ _.
        option_keeps Q (lookup id m.by_id) (λ _. h)
          (λ p e.
            if_keeps Q ((m.heap p).stream_id == s) (λ _. touch-IsRegistry now p m h) (λ _. h)))
  where
    Q : Manager × Option (Bytes × Bytes) → Type 0
    Q r = IsRegistry r.0

unlist-IsRegistry : (c : Call) (m : Manager) → IsRegistry m → IsRegistry (unlist_phase c m)
unfolding unlist_phase
unlist-IsRegistry c m h = at c.phase
  where
    at :
        (ph : Phase)
        → IsRegistry (elim ph [
          | launched p ↦ record m { calls = remove_call c.ticket m.calls }
          | failing ↦ record m { calls = set_phase c.ticket releasing m.calls }
          | opening ↦ m
          | releasing ↦ m
        ])
    at opening = h
    at (launched p) = relabel-IsRegistry m _ h
    at failing = relabel-IsRegistry m _ h
    at releasing = h

release-IsRegistry : (c : Call) (m : Manager) → IsRegistry m → IsRegistry (release_phase c m)
unfolding release_phase
release-IsRegistry c m h = at c.phase
  where
    at :
        (ph : Phase)
        → IsRegistry (elim ph [
          | releasing ↦ record m { calls = remove_call c.ticket m.calls; slots = m.slots - 1 }
          | launched p ↦ m
          | failing ↦ m
          | opening ↦ m
        ])
    at opening = h
    at (launched p) = h
    at failing = h
    at releasing = record { filed = h.filed; named = h.named; owned = h.owned }

pub step-IsRegistry : (a : Action) (m : Manager) → IsRegistry m → IsRegistry (step a m)
unfolding step
step-IsRegistry (begin_call stat now s signature) m h = begin-IsRegistry stat now s signature m h
step-IsRegistry (commit_call now t signature o) m h =
    on_call_keeps IsRegistry t (λ c. commit_phase now c signature o) m
      (λ c _. commit_phase-IsRegistry now c signature o m h) h
step-IsRegistry (unlist_call t) m h =
    on_call_keeps IsRegistry t unlist_phase m (λ c _. unlist-IsRegistry c m h) h
step-IsRegistry (release_call t) m h =
    on_call_keeps IsRegistry t release_phase m (λ c _. release-IsRegistry c m h) h
step-IsRegistry (process_ended p) m h = watch-IsRegistry p m h
step-IsRegistry (stop_stream s) m h = stop-IsRegistry s m h
step-IsRegistry (pin_stream now s pinned) m h = set_pinned-IsRegistry now s pinned m h
step-IsRegistry (use_existing stat now s signature) m h =
    existing-IsRegistry stat now s signature m h
step-IsRegistry (use_path now s id name) m h = get_path-IsRegistry now s id name m h
step-IsRegistry (reap now) m h = reap-IsRegistry now m h
step-IsRegistry close_manager m h = close-IsRegistry m h

-- From a new manager, after any sequence of critical sections: a stream's session belongs to that
-- stream, an identifier leads only to the present session of a stream and to the one it names, and
-- every process that still runs is cancelled or is its stream's present session, so none is
-- forgotten.
pub run-IsRegistry : (cap : ℕ) (actions : List Action) → IsRegistry (run actions (new_manager cap))
run-IsRegistry cap actions = run_keeps IsRegistry step-IsRegistry actions (new_manager cap) (
    unfold new_manager in
    record {
      filed = λ s p. rw lookup-empty (λ e. cc e);
      named = λ id p. rw lookup-empty (λ e. cc e);
      owned = λ p e. cc e;
    })
