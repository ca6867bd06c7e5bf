-- ===== src/Remux/Rules.antt =====
-- Induction rules for the loops and schedules of gateway/internal/remux/remux.go: a property that
-- each piece keeps is kept by the whole.
use psychic_computing_machin.Common.{
  ℕ, ◌≡◌, refl, Option, none, some, List, [], ◌∷◌, if_keeps, option_keeps, nat_eq,
}
use psychic_computing_machin.Common.Map.{lookup}
use psychic_computing_machin.Remux.{
  Call, find_call, Manager, stop_locked, stop_key, stop_keys, reap_key, reap_keys, is_idle, Action,
  step, run, on_call,
}

module _ {κ} (P : Manager → Type κ) where
  pub on_call_keeps :
      (t : ℕ) (f : Call → Manager → Manager) (m : Manager)
      → ((c : Call) → find_call t m.calls ≡ some c → P (f c m))
      → P m
      → P (on_call t f m)
  unfolding on_call
  on_call_keeps t f m each h = found (find_call t m.calls) each
    where
      found :
          (o : Option Call)
          → ((c : Call) → o ≡ some c → P (f c m))
          → P (elim o [ none ↦ m | some c ↦ f c m ])
      found none _ = h
      found (some c) k = k c refl

  pub run_keeps :
      ((a : Action) (m : Manager) → P m → P (step a m))
      → (actions : List Action) (m : Manager) → P m
      → P (run actions m)
  unfolding run
  run_keeps each [] m h = h
  run_keeps each (a ∷ rest) m h = run_keeps each rest (step a m) (each a m h)

module _ {κ} (P : Manager → Type κ)
    (each : (k p : ℕ) (m : Manager)
      → lookup k m.sessions ≡ some p
      → P m
      → P (stop_locked p m)) where
  pub stop_key_keeps : (k : ℕ) (m : Manager) → P m → P (stop_key k m)
  unfolding stop_key
  stop_key_keeps k m h = option_keeps P (lookup k m.sessions) (λ _. h) (λ p e. each k p m e h)

  pub stop_keys_keeps : (ks : List ℕ) (m : Manager) → P m → P (stop_keys ks m)
  unfolding stop_keys
  stop_keys_keeps [] m h = h
  stop_keys_keeps (k ∷ ks) m h = stop_keys_keeps ks (stop_key k m) (stop_key_keeps k m h)

  pub reap_key_keeps : (now k : ℕ) (m : Manager) → P m → P (reap_key now k m)
  unfolding reap_key
  reap_key_keeps now k m h =
      option_keeps P (lookup k m.sessions) (λ _. h)
        (λ p e. if_keeps P (is_idle now (m.heap p)) (λ _. each k p m e h) (λ _. h))

  pub reap_keys_keeps : (now : ℕ) (ks : List ℕ) (m : Manager) → P m → P (reap_keys now ks m)
  unfolding reap_keys
  reap_keys_keeps now [] m h = h
  reap_keys_keeps now (k ∷ ks) m h =
      reap_keys_keeps now ks (reap_key now k m) (reap_key_keeps now k m h)
