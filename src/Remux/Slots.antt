-- ===== src/Remux/Slots.antt =====
-- Slots of gateway/internal/remux/remux.go: each belongs to one running process or to one `Start`
-- call that has not launched, under every interleaving.
use psychic_computing_machin.Common.{
  ℕ, ◌+◌, ◌≤◌, ◌≡◌, refl, Bool, some, List, [], ◌∷◌, arith, length, length-remove_first, nat_eq,
}
use psychic_computing_machin.Common.Text.{Bytes}
use psychic_computing_machin.Remux.{
  Phase, opening, launched, failing, releasing, Call, holding, holds_slot, find_call, set_phase,
  remove_call, cancel_calls, cancel_all, Manager, new_manager, stop_locked, reserve, begin, Opened,
  not_opened, opened, commit, unlist_phase, release_phase, watch, stop, set_pinned, existing,
  get_path, close, reap_idle, keys, Action, begin_call, commit_call, unlist_call, release_call,
  process_ended, stop_stream, pin_stream, use_existing, use_path, reap, close_manager, step, run,
  commit_phase,
}
use psychic_computing_machin.Remux.Rules.{
  on_call_keeps, run_keeps, stop_keys_keeps, reap_keys_keeps,
}

-- Setting a phase moves what the call holds.
holding-set_phase :
    (t : ℕ) (ph : Phase) (cs : List Call) {c : Call}
    → find_call t cs ≡ some c
    → holding (set_phase t ph cs) + holds_slot c.phase ≡ holding cs + holds_slot ph
unfolding holding find_call set_phase
holding-set_phase t ph [] h = ground arith
holding-set_phase t ph (d ∷ cs) {c} h = ground (arith, holding-set_phase t ph cs {c = c})

holding-remove_call :
    (t : ℕ) (cs : List Call) {c : Call}
    → find_call t cs ≡ some c
    → holding (remove_call t cs) + holds_slot c.phase ≡ holding cs
unfolding holding find_call remove_call
holding-remove_call t [] h = ground arith
holding-remove_call t (d ∷ cs) {c} h = ground (arith, holding-remove_call t cs {c = c})

pub ticket-find_call : (t : ℕ) (cs : List Call) {c : Call} → find_call t cs ≡ some c → c.ticket ≡ t
unfolding find_call
ticket-find_call t [] h = ground arith
ticket-find_call t (d ∷ cs) {c} h = ground (arith, ticket-find_call t cs {c = c})

holding-cancel_calls : (s : ℕ) (cs : List Call) → holding (cancel_calls s cs) ≡ holding cs
unfolding holding cancel_calls
holding-cancel_calls s [] = refl
holding-cancel_calls s (c ∷ cs) = ground (arith, holding-cancel_calls s cs)

holding-cancel_all : (cs : List Call) → holding (cancel_all cs) ≡ holding cs
unfolding holding cancel_all
holding-cancel_all [] = refl
holding-cancel_all (c ∷ cs) = ground (arith, holding-cancel_all cs)

pub record SlotsCounted (cap : ℕ) (m : Manager) : Type 0 where
  pub kept : m.cap ≡ cap
  pub counted : m.slots ≡ length m.running + holding m.calls
  pub bounded : m.slots ≤ cap

module _ {cap : ℕ} where
  stop_locked-SlotsCounted :
      {m : Manager} (p : ℕ) → SlotsCounted cap m → SlotsCounted cap (stop_locked p m)
  unfolding stop_locked
  stop_locked-SlotsCounted p h = record { kept = h.kept; counted = h.counted; bounded = h.bounded }

  reserve-SlotsCounted :
      {m : Manager} (s : ℕ) → SlotsCounted cap m → SlotsCounted cap (reserve s m).0
  unfolding reserve holding
  reserve-SlotsCounted s h = ground arith

  begin-SlotsCounted :
      {m : Manager} (stat : Bytes → Bool) (now s : ℕ) (signature : Bytes)
      → SlotsCounted cap m
      → SlotsCounted cap (begin stat now s signature m).0
  unfolding begin holding
  begin-SlotsCounted {m} stat now s signature h = ground arith

  commit-SlotsCounted :
      {m : Manager} (now t : ℕ) (signature : Bytes) (o : Opened) {c : Call}
      → find_call t m.calls ≡ some c
      → c.phase ≡ opening
      → SlotsCounted cap m
      → SlotsCounted cap (commit now c signature o m).0
  unfolding commit
  commit-SlotsCounted {m} now t signature (not_opened e) {c} f ph h =
      ground (arith, ticket-find_call t m.calls f, holding-set_phase t failing m.calls f)
  commit-SlotsCounted {m} now t signature (opened id dir ffmpeg) {c} f ph h = ground (
    arith,
    ticket-find_call t m.calls f,
    holding-set_phase t failing m.calls f,
    holding-set_phase t (launched m.next) m.calls f,
  )

  watch-SlotsCounted : {m : Manager} (p : ℕ) → SlotsCounted cap m → SlotsCounted cap (watch p m)
  unfolding watch
  watch-SlotsCounted {m} p h = ground (arith, length-remove_first p m.running)

  stop-SlotsCounted : {m : Manager} (s : ℕ) → SlotsCounted cap m → SlotsCounted cap (stop s m)
  unfolding stop
  stop-SlotsCounted {m} s h = ground (arith, holding-cancel_calls s m.calls)

  set_pinned-SlotsCounted :
      {m : Manager} (now s : ℕ) (pinned : Bool)
      → SlotsCounted cap m
      → SlotsCounted cap (set_pinned now s pinned m).0
  unfolding set_pinned
  set_pinned-SlotsCounted now s pinned h = ground arith

  existing-SlotsCounted :
      {m : Manager} (stat : Bytes → Bool) (now s : ℕ) (signature : Bytes)
      → SlotsCounted cap m
      → SlotsCounted cap (existing stat now s signature m).0
  unfolding existing
  existing-SlotsCounted stat now s signature h = ground arith

  get_path-SlotsCounted :
      {m : Manager} (now s : ℕ) (id name : Bytes)
      → SlotsCounted cap m
      → SlotsCounted cap (get_path now s id name m).0
  unfolding get_path
  get_path-SlotsCounted now s id name h = ground arith

  reap-SlotsCounted :
      {m : Manager} (now : ℕ) → SlotsCounted cap m → SlotsCounted cap (reap_idle now m)
  unfolding reap_idle
  reap-SlotsCounted {m} now h =
      reap_keys_keeps (SlotsCounted cap) (λ k p n e. stop_locked-SlotsCounted p) now
        (keys m.sessions) m h

  close-SlotsCounted : {m : Manager} → SlotsCounted cap m → SlotsCounted cap (close m)
  unfolding close
  close-SlotsCounted {m} h =
      stop_keys_keeps (SlotsCounted cap) (λ k p n e. stop_locked-SlotsCounted p) (keys m.sessions) _
        (ground (arith, holding-cancel_all m.calls))

  unlist-SlotsCounted :
      {m : Manager} (t : ℕ) {c : Call}
      → find_call t m.calls ≡ some c
      → SlotsCounted cap m
      → SlotsCounted cap (unlist_phase c m)
  unfolding unlist_phase
  unlist-SlotsCounted {m} t {c} f h = ground (
    arith,
    ticket-find_call t m.calls f,
    holding-set_phase t releasing m.calls f,
    holding-remove_call t m.calls f,
  )

  release-SlotsCounted :
      {m : Manager} (t : ℕ) {c : Call}
      → find_call t m.calls ≡ some c
      → SlotsCounted cap m
      → SlotsCounted cap (release_phase c m)
  unfolding release_phase
  release-SlotsCounted {m} t {c} f h =
      ground (arith, ticket-find_call t m.calls f, holding-remove_call t m.calls f)

  commit_phase-SlotsCounted :
      {m : Manager} (now t : ℕ) (signature : Bytes) (o : Opened) {c : Call}
      → find_call t m.calls ≡ some c
      → SlotsCounted cap m
      → SlotsCounted cap (commit_phase now c signature o m)
  unfolding commit_phase
  commit_phase-SlotsCounted {m} now t signature o {c} f h =
      ground (arith, λ (e : c.phase ≡ opening). commit-SlotsCounted now t signature o f e h)

  step-SlotsCounted : (a : Action) (m : Manager) → SlotsCounted cap m → SlotsCounted cap (step a m)
  unfolding step
  step-SlotsCounted (begin_call stat now s signature) m h =
      begin-SlotsCounted stat now s signature h
  step-SlotsCounted (commit_call now t signature o) m h =
      on_call_keeps (SlotsCounted cap) t (λ c. commit_phase now c signature o) m
        (λ c e. commit_phase-SlotsCounted now t signature o e h) h
  step-SlotsCounted (unlist_call t) m h =
      on_call_keeps (SlotsCounted cap) t unlist_phase m (λ c e. unlist-SlotsCounted t e h) h
  step-SlotsCounted (release_call t) m h =
      on_call_keeps (SlotsCounted cap) t release_phase m (λ c e. release-SlotsCounted t e h) h
  step-SlotsCounted (process_ended p) m h = watch-SlotsCounted p h
  step-SlotsCounted (stop_stream s) m h = stop-SlotsCounted s h
  step-SlotsCounted (pin_stream now s pinned) m h = set_pinned-SlotsCounted now s pinned h
  step-SlotsCounted (use_existing stat now s signature) m h =
      existing-SlotsCounted stat now s signature h
  step-SlotsCounted (use_path now s id name) m h = get_path-SlotsCounted now s id name h
  step-SlotsCounted (reap now) m h = reap-SlotsCounted now h
  step-SlotsCounted close_manager m h = close-SlotsCounted h

-- From a new manager, after any sequence of critical sections, the slots in use are the running
-- processes and the starts that hold one, and there are never more than the capacity, which stays
-- as it was set.
pub run-SlotsCounted :
    (cap : ℕ) (actions : List Action) → SlotsCounted cap (run actions (new_manager cap))
run-SlotsCounted cap actions =
    run_keeps (SlotsCounted cap) step-SlotsCounted actions (new_manager cap) (
      unfold new_manager holding in
      record { kept = refl; counted = omega arith; bounded = omega arith })
