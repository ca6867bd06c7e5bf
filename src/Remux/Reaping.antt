-- ===== src/Remux/Reaping.antt =====
-- What the housekeeping and the closing of gateway/internal/remux/remux.go end.
use psychic_computing_machin.Common.{
  ℕ, ◌+◌, ◌≤◌, ◌≡◌, ◌≢◌, refl, Bool, true, false, ◌⊎◌, inl, inr, Option, none, some, Option-cases,
  List, [], ◌∷◌, arith, contains, nat_eq, list_eq, ◌==◌, if◌then◌else◌, ◌↔◌, ◌||◌, ◌∙◌,
}
use psychic_computing_machin.Common.Map.{Map, lookup, lookup-erase}
use psychic_computing_machin.Remux.{
  Manager, write, stop_locked, idle_time, reap_key, reap_keys, reap_idle, keys, is_idle,
}
use psychic_computing_machin.Remux.Registry.{IsRegistry, stop_locked-IsRegistry}
use psychic_computing_machin.Remux.Rules.{reap_key_keeps}

-- The keys of a map are those at which it has a value.
pub contains-keys : (k : ℕ) (m : Map ℕ ℕ) {p : ℕ} → lookup k m ≡ some p → contains k (keys m) ≡ true
unfolding lookup keys
contains-keys k [] h = ground arith
contains-keys k ((j, v) ∷ m) {p} h = ground (arith, contains-keys k m {p = p})

pub sessions-stop_locked :
    (k p j : ℕ) (m : Manager)
    → lookup k m.sessions ≡ some p
    → IsRegistry m
    → lookup j (stop_locked p m).sessions ≡ (if k == j then none else lookup j m.sessions)
unfolding stop_locked
sessions-stop_locked k p j m f h = rw lookup-erase (ground (arith, h.filed k p f))

-- The session of a stream, unless it is idle.
abbrev pub survivor : ℕ → Manager → Option ℕ → Option ℕ
survivor now m none = none
survivor now m (some p) = if is_idle now (m.heap p) then none else some p

heap-stop_locked : (p q : ℕ) (m : Manager) → p ≢ q → (stop_locked p m).heap q ≡ m.heap q
unfolding stop_locked write
heap-stop_locked p q m h = ground arith

sessions-reap_key :
    (now k j : ℕ) (m : Manager)
    → IsRegistry m
    → lookup j (reap_key now k m).sessions
      ≡ (if k == j then survivor now m (lookup j m.sessions) else lookup j m.sessions)
unfolding reap_key
sessions-reap_key now k j m h = elim (Option-cases (lookup k m.sessions)) [
  | inl e ↦ ground (arith, e)
  | inr (p, e) ↦ ground (arith, e, sessions-stop_locked k p j m e h)
]

is_idle-reap_key :
    (now k q : ℕ) (m : Manager) → is_idle now ((reap_key now k m).heap q) ≡ is_idle now (m.heap q)
unfolding reap_key stop_locked write is_idle
is_idle-reap_key now k q m = ground arith

survivor-reap_key :
    (now k : ℕ) (m : Manager) (o : Option ℕ) → survivor now (reap_key now k m) o ≡ survivor now m o
survivor-reap_key now k m none = refl
survivor-reap_key now k m (some p) = rw (is_idle-reap_key now k p m)

survivor_idem :
    (now : ℕ) (m : Manager) (o : Option ℕ) → survivor now m (survivor now m o) ≡ survivor now m o
survivor_idem now m none = refl
survivor_idem now m (some p) = ground arith

sessions-reap_keys :
    (now : ℕ) (ks : List ℕ) (j : ℕ) (m : Manager)
    → IsRegistry m
    → lookup j (reap_keys now ks m).sessions
      ≡ (if contains j ks then survivor now m (lookup j m.sessions) else lookup j m.sessions)
unfolding reap_keys
sessions-reap_keys now [] j m h = refl
sessions-reap_keys now (k ∷ ks) j m h =
    sessions-reap_keys now ks j (reap_key now k m)
      (reap_key_keeps IsRegistry stop_locked-IsRegistry now k m h)
    ∙ rw (sessions-reap_key now k j m h)
        (rw (survivor-reap_key now k m) (joined (lookup j m.sessions) (contains j ks) (k == j)))
  where
    joined :
        (o : Option ℕ) (b c : Bool)
        → (if b
            then survivor now m (if c then survivor now m o else o)
            else (if c then survivor now m o else o))
          ≡ (if c || b then survivor now m o else o)
    joined o true true = survivor_idem now m o
    joined o true false = refl
    joined o false true = refl
    joined o false false = refl

-- After housekeeping at `now`, a stream keeps its session exactly if the session is pinned or was
-- used within the idle time, for every manager whose maps agree.
pub sessions-reap_idle :
    (now j : ℕ) (m : Manager)
    → IsRegistry m
    → lookup j (reap_idle now m).sessions ≡ survivor now m (lookup j m.sessions)
unfolding reap_idle
sessions-reap_idle now j m h =
    sessions-reap_keys now (keys m.sessions) j m h ∙ kept (Option-cases (lookup j m.sessions))
  where
    kept :
        (lookup j m.sessions ≡ none) ⊎ ((p : ℕ) × (lookup j m.sessions ≡ some p))
        → (if contains j (keys m.sessions)
            then survivor now m (lookup j m.sessions)
            else lookup j m.sessions)
          ≡ survivor now m (lookup j m.sessions)
    kept (inl e) = ground (arith, e)
    kept (inr (p, e)) = rw (contains-keys j m.sessions e) refl

-- In a manager whose maps agree, housekeeping at `now` leaves a stream the session `p` exactly if it
-- had `p` before and `p` is pinned or was used at most 90 seconds ago.
pub reap_idle_keeps :
    (now j p : ℕ) (m : Manager)
    → IsRegistry m
    → (lookup j (reap_idle now m).sessions ≡ some p) ↔ (
        (lookup j m.sessions ≡ some p)
        × (((m.heap p).pinned ≡ true) ⊎ (now ≤ (m.heap p).last_used + idle_time)))
unfolding is_idle
reap_idle_keeps now j p m h = rw (sessions-reap_idle now j m h) (kept (lookup j m.sessions))
  where
    kept :
        (o : Option ℕ)
        → (survivor now m o ≡ some p)
          ↔ ((o ≡ some p) × (((m.heap p).pinned ≡ true) ⊎ (now ≤ (m.heap p).last_used + idle_time)))
    kept none = ((λ e. cc e), (λ e. cc (e.0)))
    kept (some q) = ground arith
