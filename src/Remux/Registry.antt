-- ===== src/Remux/Registry.antt =====
-- How the two maps of gateway/internal/remux/remux.go agree with the sessions and the processes, and
-- the writes that keep them so.
use psychic_computing_machin.Common.{
  ℕ, ◌<◌, ◌≡◌, true, ◌⊎◌, none, some, List, [], ◌∷◌, arith, contains, remove_first, nat_eq, list_eq,
  same_list_iff,
}
use psychic_computing_machin.Common.Text.{Bytes}
use psychic_computing_machin.Common.Map.{lookup, map_laws}
use psychic_computing_machin.Remux.{Call, Session, Manager, write, stop_locked, launch}

pub record IsRegistry (m : Manager) : Type 0 where
  pub filed : (s p : ℕ) → lookup s m.sessions ≡ some p → ((m.heap p).stream_id ≡ s) × (p < m.next)
  pub named :
      (id : Bytes) (p : ℕ)
      → lookup id m.by_id ≡ some p
      → ((m.heap p).id ≡ id) × (lookup (m.heap p).stream_id m.sessions ≡ some p)
  pub owned :
      (p : ℕ)
      → contains p m.running ≡ true
      → (p < m.next)
        × (((m.heap p).cancelled ≡ true) ⊎ (lookup (m.heap p).stream_id m.sessions ≡ some p))

-- A write that leaves a session's names alone and withdraws no cancellation.
abbrev pub Refreshes : Session → Session → Type 0
Refreshes s t =
    (t.id ≡ s.id) × (t.stream_id ≡ s.stream_id) × (s.cancelled ≡ true → t.cancelled ≡ true)

pub refreshed-IsRegistry :
    (m : Manager) (heap : ℕ → Session)
    → ((p : ℕ) → Refreshes (m.heap p) (heap p))
    → IsRegistry m
    → IsRegistry (record m { heap = heap })
refreshed-IsRegistry m heap same h = record {
  filed = λ s p e. ground (arith, same p, h.filed s p e);
  named = λ id p e. ground (arith, same p, h.named id p e);
  owned = λ p e. ground (arith, same p, h.owned p e);
}

pub write-Refreshes :
    (heap : ℕ → Session) (p : ℕ) (t : Session)
    → Refreshes (heap p) t
    → (q : ℕ) → Refreshes (heap q) (write heap p t q)
unfolding write
write-Refreshes heap p t h q = ground arith

pub contains-remove_first :
    (p q : ℕ) (xs : List ℕ) → contains q (remove_first p xs) ≡ true → contains q xs ≡ true
unfolding remove_first
contains-remove_first p q [] h = h
contains-remove_first p q (x ∷ xs) h = ground (arith, contains-remove_first p q xs)

pub stop_locked-IsRegistry :
    (k p : ℕ) (m : Manager)
    → lookup k m.sessions ≡ some p
    → IsRegistry m
    → IsRegistry (stop_locked p m)
unfolding stop_locked write
stop_locked-IsRegistry k p m f h = record {
  filed = λ s q. simp map_laws (ground (arith, h.filed s q));
  named = λ id q.
      simp map_laws (ground (arith, same_list_iff (m.heap p).id id, h.named id q, h.filed k p f));
  owned = λ q e. simp map_laws (ground (arith, h.owned q e, h.filed k p f));
}

pub launch-IsRegistry :
    (now : ℕ) (c : Call) (signature id dir : Bytes) (m : Manager)
    → lookup c.stream_id m.sessions ≡ none
    → IsRegistry m
    → IsRegistry (launch now c signature id dir m)
unfolding launch write
launch-IsRegistry now c signature id dir m free h = record {
  filed = λ s q. simp map_laws (ground (arith, h.filed s q));
  named = λ j q.
      simp map_laws
        (ground (arith, same_list_iff id j, h.named j q, h.filed (m.heap q).stream_id q));
  owned = λ q. simp map_laws (ground (arith, h.owned q));
}
