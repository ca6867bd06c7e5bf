-- ===== src/Leakcheck/Exclusion.antt =====
-- Who holds the lock of gateway/internal/leakcheck/store.go.
use psychic_computing_machin.Common.{
  none-some, some_injective, ℕ, ◌+◌, ◌-◌, ◌≤◌, ◌<◌, ◌≡◌, ◌≢◌, refl, sym, ap, subst, ◌∙◌, Bool, true,
  false, Option, none, some, List, [], ◌∷◌, ltb, eqb, eqb_iff, if◌then◌else◌, if_keeps, ◌⊎◌, inl,
  inr, arith,
}
use psychic_computing_machin.Leakcheck.{
  lock_stale_after, LockPhase, inserting, looking, retrying, without, stealing, holding,
  lock_statement, LockState, set_phase, lock_step, lock_run,
}

-- A holder's row is the lock, there is one holder, and what is about to be stolen was stale.
pub record IsLock (s : LockState) : Type 0 where
  pub held : (p a : ℕ) → s.phase p ≡ holding a → s.row ≡ some a
  pub single : (p q a b : ℕ) → s.phase p ≡ holding a → s.phase q ≡ holding b → p ≡ q
  pub stale : (p t : ℕ) → s.phase p ≡ stealing t → t + lock_stale_after ≤ s.clock

-- At the time no holder has had the lock for 15 minutes, and no statement is later.
pub record IsTimely (now : ℕ) (s : LockState) : Type 0 where
  pub later : s.clock ≤ now
  pub fresh : (p a : ℕ) → s.phase p ≡ holding a → now < a + lock_stale_after

unfoldable pub IsTimelyRun : List (ℕ × ℕ) → LockState → Type 0
IsTimelyRun [] s = Unit
IsTimelyRun ((p, now) ∷ xs) s = IsTimely now s × IsTimelyRun xs (lock_step p now s)

abbrev after : ℕ → ℕ → Option ℕ → LockPhase → LockState → LockState
after p now row next s = record { row = row; phase = set_phase p next s.phase; clock = now }

holding_same : (a b : ℕ) → holding a ≡ holding b → a ≡ b
holding_same a b h = ground arith

-- The phase of a process after a step: the new one, or another process's old one.
phase_cases :
    (p q : ℕ) (next x : LockPhase) (phase : ℕ → LockPhase)
    → set_phase p next phase q ≡ x
    → ((p ≡ q) × (next ≡ x)) ⊎ ((p ≢ q) × (phase q ≡ x))
phase_cases p q next x phase = by_test (eqb p q) refl
  where
    by_test :
        (b : Bool)
        → eqb p q ≡ b
        → (if b then next else phase q) ≡ x
        → ((p ≡ q) × (next ≡ x)) ⊎ ((p ≢ q) × (phase q ≡ x))
    by_test true e h = inl ((eqb_iff p q).0 e, h)
    by_test false e h = inr ((λ same. ground (arith, same, e)), h)

is_plain : LockPhase → Bool
is_plain (stealing t) = false
is_plain (holding a) = false
is_plain _ = true

plain-holding : (next : LockPhase) → is_plain next ≡ true → (a : ℕ) → next ≢ holding a
unfolding is_plain
plain-holding next plain a e = no (sym (ap is_plain e) ∙ plain)
  where
    no : false ≢ true
    no h = ground arith

plain-stealing : (next : LockPhase) → is_plain next ≡ true → (t : ℕ) → next ≢ stealing t
unfolding is_plain
plain-stealing next plain t e = no (sym (ap is_plain e) ∙ plain)
  where
    no : false ≢ true
    no h = ground arith

stealing-holding : (t a : ℕ) → stealing t ≢ holding a
stealing-holding t a e = ground arith

stealing_same : (a b : ℕ) → stealing a ≡ stealing b → a ≡ b
stealing_same a b h = ground arith

stale_time : (now t : ℕ) → ltb (now - t) lock_stale_after ≡ false → t + lock_stale_after ≤ now
stale_time now t h = ground (arith, h)

not_both : (now t : ℕ) → t + lock_stale_after ≤ now → now < t + lock_stale_after → ⊥
not_both now t a b = omega (arith, a, b)

module _ (s : LockState) (h : IsLock s) (p now : ℕ) (in_time : IsTimely now s) where
  stale_later : (q t : ℕ) → s.phase q ≡ stealing t → t + lock_stale_after ≤ now
  stale_later q t e = omega (arith, h.stale q t e, in_time.later)

  -- No one holds the lock: the process does now.
  gained : ((q a : ℕ) → s.phase q ≢ holding a) → IsLock (after p now (some now) (holding now) s)
  gained free = record {
    held = λ q a e. elim (phase_cases p q (holding now) (holding a) s.phase e) [
      | inl here ↦ ap some (holding_same now a here.1)
      | inr there ↦ elim (free q a there.1) [ ]
    ];
    single = λ q q' a b e e'. elim (phase_cases p q (holding now) (holding a) s.phase e) [
      | inr there ↦ elim (free q a there.1) [ ]
      | inl here ↦ elim (phase_cases p q' (holding now) (holding b) s.phase e') [
        | inr there ↦ elim (free q' b there.1) [ ]
        | inl here' ↦ sym here.0 ∙ here'.0
      ]
    ];
    stale = λ q t e. elim (phase_cases p q (holding now) (stealing t) s.phase e) [
      | inl here ↦ elim (holding_not now t here.1) [ ]
      | inr there ↦ stale_later q t there.1
    ];
  }
    where
      holding_not : (a t : ℕ) → holding a ≢ stealing t
      holding_not a t e = ground arith

  -- The row stays, or no one else holds it, and the process does not hold it.
  passed :
      (row : Option ℕ) (next : LockPhase)
      → ((a : ℕ) → next ≢ holding a)
      → ((t : ℕ) → next ≡ stealing t → t + lock_stale_after ≤ now)
      → ((q a : ℕ) → p ≢ q → s.phase q ≡ holding a → row ≡ some a)
      → IsLock (after p now row next s)
  passed row next idle late kept = record {
    held = λ q a e. elim (phase_cases p q next (holding a) s.phase e) [
      | inl here ↦ elim (idle a here.1) [ ]
      | inr there ↦ kept q a there.0 there.1
    ];
    single = λ q q' a b e e'. elim (phase_cases p q next (holding a) s.phase e) [
      | inl here ↦ elim (idle a here.1) [ ]
      | inr there ↦ elim (phase_cases p q' next (holding b) s.phase e') [
        | inl here ↦ elim (idle b here.1) [ ]
        | inr there' ↦ h.single q q' a b there.1 there'.1
      ]
    ];
    stale = λ q t e. elim (phase_cases p q next (stealing t) s.phase e) [
      | inl here ↦ late t here.1
      | inr there ↦ stale_later q t there.1
    ];
  }

  -- The row as it is, and a phase that neither holds nor steals.
  stayed :
      (row : Option ℕ) (next : LockPhase)
      → s.row ≡ row
      → is_plain next ≡ true
      → IsLock (after p now row next s)
  stayed row next e plain =
      passed row next (plain-holding next plain) (λ t f. elim (plain-stealing next plain t f) [ ])
        (λ q a _ f. sym e ∙ h.held q a f)

  free_row : s.row ≡ none → (q a : ℕ) → s.phase q ≢ holding a
  free_row e q a f = none-some a (sym e ∙ h.held q a f)

  statement-IsLock :
      (now_phase : LockPhase) (row : Option ℕ)
      → s.phase p ≡ now_phase
      → s.row ≡ row
      → IsLock
          (after p now (lock_statement now now_phase row).0 (lock_statement now now_phase row).1 s)
  unfolding lock_statement is_plain
  statement-IsLock inserting none f e = gained (free_row e)
  statement-IsLock inserting (some t) f e = stayed (some t) looking e refl
  statement-IsLock looking none f e = stayed none retrying e refl
  statement-IsLock looking (some t) f e =
      if_keeps (λ next. IsLock (after p now (some t) next s)) (ltb (now - t) lock_stale_after)
        (λ _. stayed (some t) without e refl)
        (λ old.
          passed (some t) (stealing t) (stealing-holding t)
            (λ u g.
              subst (λ x. x + lock_stale_after ≤ now) (stealing_same t u g) (stale_time now t old))
            (λ q a _ g. sym e ∙ h.held q a g))
  statement-IsLock retrying none f e = gained (free_row e)
  statement-IsLock retrying (some t) f e = stayed (some t) without e refl
  statement-IsLock (stealing t) none f e = stayed none without e refl
  statement-IsLock (stealing t) (some u) f e =
      if_keeps (λ (r : Option ℕ × LockPhase). IsLock (after p now r.0 r.1 s)) (eqb u t)
        (λ same. gained (λ q a g.
          let at_t = sym (some_injective u a (sym e ∙ h.held q a g)) ∙ (eqb_iff u t).0 same in
          not_both now t (stale_later p t f)
            (subst (λ x. now < x + lock_stale_after) at_t (in_time.fresh q a g))))
        (λ _. stayed (some u) without e refl)
  statement-IsLock (holding a) row f e =
      passed none inserting (plain-holding inserting refl)
        (λ t g. elim (plain-stealing inserting refl t g) [ ])
        (λ q b other g. elim (other (h.single p q a b f g)) [ ])
  statement-IsLock without row f e = stayed row inserting e refl

lock_run-IsLock :
    (xs : List (ℕ × ℕ)) (s : LockState) → IsTimelyRun xs s → IsLock s → IsLock (lock_run xs s)
unfolding lock_run lock_step IsTimelyRun
lock_run-IsLock [] s timely h = h
lock_run-IsLock ((p, now) ∷ xs) s timely h =
    lock_run-IsLock xs _ timely.1 (statement-IsLock s h p now timely.0 (s.phase p) s.row refl refl)

-- Before any process has begun, with the row that is there.
abbrev pub unlocked : Option ℕ → LockState
unlocked row = record { row = row; phase = λ p. inserting; clock = 0 }

-- However the statements of the processes are interleaved, with times that do not go back, two
-- processes never hold the lock at once, where every holder releases it within 15 minutes: also when
-- several of them find the same stale row at once.
pub lock_exclusive :
    (row : Option ℕ) (xs : List (ℕ × ℕ)) (p q a b : ℕ)
    → IsTimelyRun xs (unlocked row)
    → (lock_run xs (unlocked row)).phase p ≡ holding a
    → (lock_run xs (unlocked row)).phase q ≡ holding b
    → p ≡ q
unfolding is_plain
lock_exclusive row xs p q a b timely =
    (lock_run-IsLock xs (unlocked row) timely start).single p q a b
  where
    start : IsLock (unlocked row)
    start = record {
      held = λ p a e. elim (plain-holding inserting refl a e) [ ];
      single = λ p q a b e. elim (plain-holding inserting refl a e) [ ];
      stale = λ p t e. elim (plain-stealing inserting refl t e) [ ];
    }
