-- ===== src/Remux/Tickets.antt =====
-- The tickets of the `Start` calls of gateway/internal/remux/remux.go under any schedule: what each
-- change to the calls keeps, every critical section keeps.
use psychic_computing_machin.Common.{
  ℕ, suc, ◌-◌, ◌≡◌, Bool, false, Option, some, List, ◌∷◌, nat_eq, contains, list_eq, ◌==◌, not,
  ◌&&◌, leb, if_keeps, option_keeps, Result,
}
use psychic_computing_machin.Common.Text.{Bytes}
use psychic_computing_machin.Common.Map.{lookup}
use psychic_computing_machin.Remux.{
  Phase, opening, launched, failing, releasing, Call, set_phase, remove_call, cancel_calls,
  cancel_all, Manager, stop_locked, reserve, StartError, Begin, begin, Opened, not_opened, opened,
  commit, commit_phase, exposed_name, unlist_phase, release_phase, stop, cancel_pending,
  cancel_every, set_pinned, existing, get_path, close, reap_idle, keys, watch, Action, begin_call,
  commit_call, unlist_call, release_call, process_ended, stop_stream, pin_stream, use_existing,
  use_path, reap, close_manager, step, run,
}
use psychic_computing_machin.Remux.Rules.{
  on_call_keeps, run_keeps, stop_keys_keeps, reap_keys_keeps,
}

abbrev fresh_call : ℕ → ℕ → Call
fresh_call n s = record { ticket = n; stream_id = s; cancelled = false; phase = opening }

-- What the changes to the calls keep.
pub record IsKept {κ} (P : ℕ → List Call → Type κ) : Type κ where
  pub added : (n s : ℕ) (cs : List Call) → P n cs → P (suc n) (fresh_call n s ∷ cs)
  pub moved : (n t : ℕ) (ph : Phase) (cs : List Call) → P n cs → P n (set_phase t ph cs)
  pub removed : (n t : ℕ) (cs : List Call) → P n cs → P n (remove_call t cs)
  pub cancelled : (n s : ℕ) (cs : List Call) → P n cs → P n (cancel_calls s cs)
  pub all_cancelled : (n : ℕ) (cs : List Call) → P n cs → P n (cancel_all cs)

module _ {κ} {P : ℕ → List Call → Type κ} (k : IsKept P) where
  abbrev pub OnCalls : Manager → Type κ
  OnCalls m = P m.next_ticket m.calls

  reserve-OnCalls : (s : ℕ) (m : Manager) → OnCalls m → OnCalls (reserve s m).0
  unfolding reserve
  reserve-OnCalls s m h =
      if_keeps (λ (r : Manager × Begin). OnCalls r.0) (leb m.cap m.slots) (λ _. h)
        (λ _. k.added m.next_ticket s m.calls h)

  stop_locked-OnCalls :
      (j p : ℕ) (m : Manager) → lookup j m.sessions ≡ some p → OnCalls m → OnCalls (stop_locked p m)
  unfolding stop_locked
  stop_locked-OnCalls j p m e h = h

  begin-OnCalls :
      (stat : Bytes → Bool) (now s : ℕ) (signature : Bytes) (m : Manager)
      → OnCalls m
      → OnCalls (begin stat now s signature m).0
  unfolding begin
  begin-OnCalls stat now s signature m h =
      if_keeps Q m.closed (λ _. h)
        (λ _.
          option_keeps Q (lookup s m.sessions) (λ _. reserve-OnCalls s m h)
            (λ p e.
              if_keeps Q ((m.heap p).signature == signature)
                (λ _.
                  if_keeps Q (stat (m.heap p).dir) (λ _. h)
                    (λ _.
                      if_keeps Q (m.heap p).done
                        (λ _. reserve-OnCalls s (stop_locked p m) (stop_locked-OnCalls s p m e h))
                        (λ _. h)))
                (λ _. reserve-OnCalls s (stop_locked p m) (stop_locked-OnCalls s p m e h))))
    where
      Q : Manager × Begin → Type κ
      Q r = OnCalls r.0

  commit-OnCalls :
      (now : ℕ) (c : Call) (signature : Bytes) (o : Opened) (m : Manager)
      → OnCalls m
      → OnCalls (commit now c signature o m).0
  unfolding commit
  commit-OnCalls now c signature (not_opened e) m h =
      k.moved m.next_ticket c.ticket failing m.calls h
  commit-OnCalls now c signature (opened id dir ffmpeg) m h =
      if_keeps Q c.cancelled (λ _. failed)
        (λ _.
          if_keeps Q m.closed (λ _. failed)
            (λ _.
              option_keeps Q (lookup c.stream_id m.sessions)
                (λ _.
                  if_keeps Q ffmpeg
                    (λ _. k.moved m.next_ticket c.ticket (launched m.next) m.calls h) (λ _. failed))
                (λ p e. failed)))
    where
      Q : Manager × Result StartError ℕ → Type κ
      Q r = OnCalls r.0

      failed : P m.next_ticket (set_phase c.ticket failing m.calls)
      failed = k.moved m.next_ticket c.ticket failing m.calls h

  commit_phase-OnCalls :
      (now : ℕ) (c : Call) (signature : Bytes) (o : Opened) (m : Manager)
      → OnCalls m
      → OnCalls (commit_phase now c signature o m)
  unfolding commit_phase
  commit_phase-OnCalls now c signature o m h = at c.phase
    where
      at :
          (ph : Phase)
          → OnCalls (elim ph [
            | opening ↦ (commit now c signature o m).0
            | launched p ↦ m
            | failing ↦ m
            | releasing ↦ m
          ])
      at opening = commit-OnCalls now c signature o m h
      at (launched p) = h
      at failing = h
      at releasing = h

  unlist-OnCalls : (c : Call) (m : Manager) → OnCalls m → OnCalls (unlist_phase c m)
  unfolding unlist_phase
  unlist-OnCalls c m h = at c.phase
    where
      at :
          (ph : Phase)
          → OnCalls (elim ph [
            | launched p ↦ record m { calls = remove_call c.ticket m.calls }
            | failing ↦ record m { calls = set_phase c.ticket releasing m.calls }
            | opening ↦ m
            | releasing ↦ m
          ])
      at opening = h
      at (launched p) = k.removed m.next_ticket c.ticket m.calls h
      at failing = k.moved m.next_ticket c.ticket releasing m.calls h
      at releasing = h

  release-OnCalls : (c : Call) (m : Manager) → OnCalls m → OnCalls (release_phase c m)
  unfolding release_phase
  release-OnCalls c m h = at c.phase
    where
      at :
          (ph : Phase)
          → OnCalls (elim ph [
            | releasing ↦ record m { calls = remove_call c.ticket m.calls; slots = m.slots - 1 }
            | launched p ↦ m
            | failing ↦ m
            | opening ↦ m
          ])
      at opening = h
      at (launched p) = h
      at failing = h
      at releasing = k.removed m.next_ticket c.ticket m.calls h

  stop-OnCalls : (s : ℕ) (m : Manager) → OnCalls m → OnCalls (stop s m)
  unfolding stop
  stop-OnCalls s m h =
      let cancelled = k.cancelled m.next_ticket s m.calls h in
      option_keeps OnCalls (lookup s m.sessions) (λ _. cancelled)
        (λ p e. stop_locked-OnCalls s p (cancel_pending s m) e cancelled)

  existing-OnCalls :
      (stat : Bytes → Bool) (now s : ℕ) (signature : Bytes) (m : Manager)
      → OnCalls m
      → OnCalls (existing stat now s signature m).0
  unfolding existing
  existing-OnCalls stat now s signature m h =
      option_keeps Q (lookup s m.sessions) (λ _. h)
        (λ p e.
          if_keeps Q (not ((m.heap p).signature == signature)) (λ _. h)
            (λ _.
              if_keeps Q ((m.heap p).done && not (stat (m.heap p).dir))
                (λ _. stop_locked-OnCalls s p m e h) (λ _. h)))
    where
      Q : Manager × Option ℕ → Type κ
      Q r = OnCalls r.0

  get_path-OnCalls :
      (now s : ℕ) (id name : Bytes) (m : Manager) → OnCalls m → OnCalls (get_path now s id name m).0
  unfolding get_path
  get_path-OnCalls now s id name m h =
      if_keeps Q (not (exposed_name name)) (λ _. h)
        (λ _.
          option_keeps Q (lookup id m.by_id) (λ _. h)
            (λ p e. if_keeps Q ((m.heap p).stream_id == s) (λ _. h) (λ _. h)))
    where
      Q : Manager × Option (Bytes × Bytes) → Type κ
      Q r = OnCalls r.0

  set_pinned-OnCalls :
      (now s : ℕ) (pinned : Bool) (m : Manager) → OnCalls m → OnCalls (set_pinned now s pinned m).0
  unfolding set_pinned
  set_pinned-OnCalls now s pinned m h =
      option_keeps (λ (r : Manager × Bool). OnCalls r.0) (lookup s m.sessions) (λ _. h) (λ p e. h)

  watch-OnCalls : (p : ℕ) (m : Manager) → OnCalls m → OnCalls (watch p m)
  unfolding watch
  watch-OnCalls p m h = if_keeps OnCalls (contains p m.running) (λ _. h) (λ _. h)

  reap-OnCalls : (now : ℕ) (m : Manager) → OnCalls m → OnCalls (reap_idle now m)
  unfolding reap_idle
  reap-OnCalls now m h = reap_keys_keeps OnCalls stop_locked-OnCalls now (keys m.sessions) m h

  close-OnCalls : (m : Manager) → OnCalls m → OnCalls (close m)
  unfolding close
  close-OnCalls m h =
      stop_keys_keeps OnCalls stop_locked-OnCalls (keys m.sessions) (cancel_every m)
        (k.all_cancelled m.next_ticket m.calls h)

  pub step-OnCalls : (a : Action) (m : Manager) → OnCalls m → OnCalls (step a m)
  unfolding step
  step-OnCalls (begin_call stat now s signature) m h = begin-OnCalls stat now s signature m h
  step-OnCalls (commit_call now t signature o) m h =
      on_call_keeps OnCalls t (λ c. commit_phase now c signature o) m
        (λ c _. commit_phase-OnCalls now c signature o m h) h
  step-OnCalls (unlist_call t) m h =
      on_call_keeps OnCalls t unlist_phase m (λ c _. unlist-OnCalls c m h) h
  step-OnCalls (release_call t) m h =
      on_call_keeps OnCalls t release_phase m (λ c _. release-OnCalls c m h) h
  step-OnCalls (process_ended p) m h = watch-OnCalls p m h
  step-OnCalls (stop_stream s) m h = stop-OnCalls s m h
  step-OnCalls (pin_stream now s pinned) m h = set_pinned-OnCalls now s pinned m h
  step-OnCalls (use_existing stat now s signature) m h = existing-OnCalls stat now s signature m h
  step-OnCalls (use_path now s id name) m h = get_path-OnCalls now s id name m h
  step-OnCalls (reap now) m h = reap-OnCalls now m h
  step-OnCalls close_manager m h = close-OnCalls m h

  pub run-OnCalls : (actions : List Action) (m : Manager) → OnCalls m → OnCalls (run actions m)
  run-OnCalls actions m h = run_keeps OnCalls step-OnCalls actions m h
