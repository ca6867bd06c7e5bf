-- ===== src/Remux/Shut.antt =====
-- What `Close` of gateway/internal/remux/remux.go leaves behind, whatever follows.
use psychic_computing_machin.Common.{
  ℕ, ◌-◌, ◌≡◌, refl, sym, ap, ◌∙◌, Bool, true, not, Option, none, some, none-some, false-true,
  contains, nat_eq, list_eq, ◌==◌, if_keeps, option_keeps, Result,
}
use psychic_computing_machin.Common.Text.{Bytes}
use psychic_computing_machin.Common.Map.{lookup}
use psychic_computing_machin.Remux.{
  Phase, opening, launched, failing, releasing, Call, set_phase, remove_call, Manager, stop_locked,
  StartError, Begin, begin, Opened, not_opened, opened, commit, commit_phase, exposed_name,
  unlist_phase, release_phase, stop, close, cancel_every, keys, set_pinned, existing, get_path,
  reap_idle, watch, Action, begin_call, commit_call, unlist_call, release_call, process_ended,
  stop_stream, pin_stream, use_existing, use_path, reap, close_manager, step,
}
use psychic_computing_machin.Remux.Rules.{stop_keys_keeps, reap_keys_keeps, on_call_keeps}

-- A manager that is closed and has no session.
pub record IsShut (m : Manager) : Type 0 where
  pub shut : m.closed ≡ true
  pub empty : (j : ℕ) → lookup j m.sessions ≡ none

same-IsShut : {m n : Manager} → n.closed ≡ m.closed → n.sessions ≡ m.sessions → IsShut m → IsShut n
same-IsShut c s h = record { shut = c ∙ h.shut; empty = λ j. ap (λ x. lookup j x) s ∙ h.empty j }

commit-IsShut :
    (now : ℕ) (c : Call) (signature : Bytes) (o : Opened) (m : Manager)
    → IsShut m
    → IsShut (commit now c signature o m).0
unfolding commit
commit-IsShut now c signature (not_opened e) m h = same-IsShut refl refl h
commit-IsShut now c signature (opened id dir ffmpeg) m h =
    if_keeps Q c.cancelled (λ _. same-IsShut refl refl h)
      (λ _.
        if_keeps Q m.closed (λ _. same-IsShut refl refl h)
          (λ e. absurd (false-true (sym e ∙ h.shut))))
  where
    Q : Manager × Result StartError ℕ → Type 0
    Q r = IsShut r.0

-- A session that would be ended is not there.
stop_locked-IsShut :
    (j p : ℕ) (m : Manager) → lookup j m.sessions ≡ some p → IsShut m → IsShut (stop_locked p m)
stop_locked-IsShut j p m e h = absurd (none-some p (sym (h.empty j) ∙ e))

begin-IsShut :
    (stat : Bytes → Bool) (now s : ℕ) (signature : Bytes) (m : Manager)
    → IsShut m
    → IsShut (begin stat now s signature m).0
unfolding begin
begin-IsShut stat now s signature m h =
    if_keeps (λ (r : Manager × Begin). IsShut r.0) m.closed (λ _. h)
      (λ e. absurd (false-true (sym e ∙ h.shut)))

-- Where the stream has no session, nothing is done.
present_keeps :
    {B : Type 0} (Q : B → Type 0) (j : ℕ) (m : Manager) {x : B} (f : ℕ → B)
    → IsShut m
    → Q x
    → Q (elim (lookup j m.sessions) [ none ↦ x | some p ↦ f p ])
present_keeps Q j m f h q =
    option_keeps Q (lookup j m.sessions) (λ _. q)
      (λ p e. absurd (none-some p (sym (h.empty j) ∙ e)))

unlist-IsShut : (c : Call) (m : Manager) → IsShut m → IsShut (unlist_phase c m)
unfolding unlist_phase
unlist-IsShut c m h = at c.phase
  where
    at :
        (ph : Phase)
        → IsShut (elim ph [
          | launched p ↦ record m { calls = remove_call c.ticket m.calls }
          | failing ↦ record m { calls = set_phase c.ticket releasing m.calls }
          | opening ↦ m
          | releasing ↦ m
        ])
    at opening = h
    at (launched p) = same-IsShut refl refl h
    at failing = same-IsShut refl refl h
    at releasing = h

release-IsShut : (c : Call) (m : Manager) → IsShut m → IsShut (release_phase c m)
unfolding release_phase
release-IsShut c m h = at c.phase
  where
    at :
        (ph : Phase)
        → IsShut (elim ph [
          | releasing ↦ record m { calls = remove_call c.ticket m.calls; slots = m.slots - 1 }
          | launched p ↦ m
          | failing ↦ m
          | opening ↦ m
        ])
    at opening = h
    at (launched p) = h
    at failing = h
    at releasing = same-IsShut refl refl h

commit_phase-IsShut :
    (now : ℕ) (c : Call) (signature : Bytes) (o : Opened) (m : Manager)
    → IsShut m
    → IsShut (commit_phase now c signature o m)
unfolding commit_phase
commit_phase-IsShut now c signature o m h = at c.phase
  where
    at :
        (ph : Phase)
        → IsShut (elim ph [
          | opening ↦ (commit now c signature o m).0
          | launched p ↦ m
          | failing ↦ m
          | releasing ↦ m
        ])
    at opening = commit-IsShut now c signature o m h
    at (launched p) = h
    at failing = h
    at releasing = h

get_path-IsShut :
    (now s : ℕ) (id name : Bytes) (m : Manager) → IsShut m → IsShut (get_path now s id name m).0
unfolding get_path
get_path-IsShut now s id name m h =
    if_keeps Q (not (exposed_name name)) (λ _. h)
      (λ _.
        option_keeps Q (lookup id m.by_id) (λ _. h)
          (λ p e. if_keeps Q ((m.heap p).stream_id == s) (λ _. same-IsShut refl refl h) (λ _. h)))
  where
    Q : Manager × Option (Bytes × Bytes) → Type 0
    Q r = IsShut r.0

watch-IsShut : (p : ℕ) (m : Manager) → IsShut m → IsShut (watch p m)
unfolding watch
watch-IsShut p m h = if_keeps IsShut (contains p m.running) (λ _. same-IsShut refl refl h) (λ _. h)

stop-IsShut : (s : ℕ) (m : Manager) → IsShut m → IsShut (stop s m)
unfolding stop
stop-IsShut s m h = present_keeps IsShut s m _ h (same-IsShut refl refl h)

set_pinned-IsShut :
    (now s : ℕ) (pinned : Bool) (m : Manager) → IsShut m → IsShut (set_pinned now s pinned m).0
unfolding set_pinned
set_pinned-IsShut now s pinned m h = present_keeps (λ (r : Manager × Bool). IsShut r.0) s m _ h h

existing-IsShut :
    (stat : Bytes → Bool) (now s : ℕ) (signature : Bytes) (m : Manager)
    → IsShut m
    → IsShut (existing stat now s signature m).0
unfolding existing
existing-IsShut stat now s signature m h =
    present_keeps (λ (r : Manager × Option ℕ). IsShut r.0) s m _ h h

reap-IsShut : (now : ℕ) (m : Manager) → IsShut m → IsShut (reap_idle now m)
unfolding reap_idle
reap-IsShut now m h = reap_keys_keeps IsShut stop_locked-IsShut now (keys m.sessions) m h

close-again-IsShut : (m : Manager) → IsShut m → IsShut (close m)
unfolding close
close-again-IsShut m h =
    stop_keys_keeps IsShut stop_locked-IsShut (keys m.sessions) (cancel_every m)
      (record { shut = refl; empty = h.empty })

pub step-IsShut : (a : Action) (m : Manager) → IsShut m → IsShut (step a m)
unfolding step
step-IsShut (begin_call stat now s signature) m h = begin-IsShut stat now s signature m h
step-IsShut (commit_call now t signature o) m h =
    on_call_keeps IsShut t (λ c. commit_phase now c signature o) m
      (λ c _. commit_phase-IsShut now c signature o m h) h
step-IsShut (unlist_call t) m h =
    on_call_keeps IsShut t unlist_phase m (λ c _. unlist-IsShut c m h) h
step-IsShut (release_call t) m h =
    on_call_keeps IsShut t release_phase m (λ c _. release-IsShut c m h) h
step-IsShut (process_ended p) m h = watch-IsShut p m h
step-IsShut (stop_stream s) m h = stop-IsShut s m h
step-IsShut (pin_stream now s pinned) m h = set_pinned-IsShut now s pinned m h
step-IsShut (use_existing stat now s signature) m h = existing-IsShut stat now s signature m h
step-IsShut (use_path now s id name) m h = get_path-IsShut now s id name m h
step-IsShut (reap now) m h = reap-IsShut now m h
step-IsShut close_manager m h = close-again-IsShut m h
