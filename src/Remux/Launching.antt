-- ===== src/Remux/Launching.antt =====
-- `Start` and the end of a process, of gateway/internal/remux/remux.go, keep its maps in agreement.
use psychic_computing_machin.Common.{
  ℕ, ◌≡◌, refl, Bool, some, List, arith, contains, nat_eq, list_eq, if_keeps, option_keeps, leb,
  ◌==◌, Result,
}
use psychic_computing_machin.Common.Text.{Bytes}
use psychic_computing_machin.Common.Map.{lookup}
use psychic_computing_machin.Remux.{
  Phase, opening, launched, failing, releasing, Call, Manager, write, touch, stop_locked, reserve,
  begin, Begin, Opened, not_opened, opened, commit, commit_phase, fail, StartError, watch,
}
use psychic_computing_machin.Remux.Registry.{
  IsRegistry, refreshed-IsRegistry, write-Refreshes, contains-remove_first, stop_locked-IsRegistry,
  launch-IsRegistry,
}

pub touch-IsRegistry : (now p : ℕ) (m : Manager) → IsRegistry m → IsRegistry (touch now p m)
unfolding touch
touch-IsRegistry now p m =
    refreshed-IsRegistry m _ (write-Refreshes m.heap p _ (refl, refl, λ e. e))

pub reserve-IsRegistry : (s : ℕ) (m : Manager) → IsRegistry m → IsRegistry (reserve s m).0
unfolding reserve
reserve-IsRegistry s m h =
    if_keeps (λ (r : Manager × Begin). IsRegistry r.0) (leb m.cap m.slots) (λ _. h)
      (λ _. record { filed = h.filed; named = h.named; owned = h.owned })

pub begin-IsRegistry :
    (stat : Bytes → Bool) (now s : ℕ) (signature : Bytes) (m : Manager)
    → IsRegistry m
    → IsRegistry (begin stat now s signature m).0
unfolding begin
begin-IsRegistry stat now s signature m h =
    if_keeps Q m.closed (λ _. h)
      (λ _.
        option_keeps Q (lookup s m.sessions) (λ _. reserve-IsRegistry s m h)
          (λ p e.
            if_keeps Q ((m.heap p).signature == signature)
              (λ _.
                if_keeps Q (stat (m.heap p).dir) (λ _. touch-IsRegistry now p m h)
                  (λ _.
                    if_keeps Q (m.heap p).done (λ _. restart p e)
                      (λ _. touch-IsRegistry now p m h)))
              (λ _. restart p e)))
  where
    Q : Manager × Begin → Type 0
    Q r = IsRegistry r.0

    restart : (p : ℕ) → lookup s m.sessions ≡ some p → IsRegistry (reserve s (stop_locked p m)).0
    restart p e = reserve-IsRegistry s _ (stop_locked-IsRegistry s p m e h)

pub relabel-IsRegistry :
    (m : Manager) (calls : List Call) → IsRegistry m → IsRegistry (record m { calls = calls })
relabel-IsRegistry m calls h = record { filed = h.filed; named = h.named; owned = h.owned }

pub commit-IsRegistry :
    (now : ℕ) (c : Call) (signature : Bytes) (o : Opened) (m : Manager)
    → IsRegistry m
    → IsRegistry (commit now c signature o m).0
unfolding commit
commit-IsRegistry now c signature (not_opened e) m h = unfold fail in relabel-IsRegistry m _ h
commit-IsRegistry now c signature (opened id dir ffmpeg) m h =
    if_keeps Q c.cancelled (λ _. failed)
      (λ _.
        if_keeps Q m.closed (λ _. failed)
          (λ _.
            option_keeps Q (lookup c.stream_id m.sessions)
              (λ e.
                if_keeps Q ffmpeg (λ _. launch-IsRegistry now c signature id dir m e h)
                  (λ _. failed))
              (λ p e.
                unfold fail in relabel-IsRegistry (touch now p m) _ (touch-IsRegistry now p m h))))
  where
    Q : Manager × Result StartError ℕ → Type 0
    Q r = IsRegistry r.0

    failed : IsRegistry (fail c m)
    failed = unfold fail in relabel-IsRegistry m _ h

pub commit_phase-IsRegistry :
    (now : ℕ) (c : Call) (signature : Bytes) (o : Opened) (m : Manager)
    → IsRegistry m
    → IsRegistry (commit_phase now c signature o m)
unfolding commit_phase
commit_phase-IsRegistry now c signature o m h = at c.phase
  where
    at :
        (ph : Phase)
        → IsRegistry (elim ph [
          | opening ↦ (commit now c signature o m).0
          | launched p ↦ m
          | failing ↦ m
          | releasing ↦ m
        ])
    at opening = commit-IsRegistry now c signature o m h
    at (launched p) = h
    at failing = h
    at releasing = h

pub watch-IsRegistry : (p : ℕ) (m : Manager) → IsRegistry m → IsRegistry (watch p m)
unfolding watch write
watch-IsRegistry p m h =
    if_keeps IsRegistry (contains p m.running)
      (λ _. record {
        filed = λ s q e. ground (arith, h.filed s q e);
        named = λ id q e. ground (arith, h.named id q e);
        owned = λ q e. ground (arith, contains-remove_first p q m.running e, h.owned q);
      })
      (λ _. h)
