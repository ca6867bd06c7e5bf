-- ===== src/Leakcheck/Lock.antt =====
-- `AcquireLock` and `ReleaseLock` of gateway/internal/leakcheck/store.go, statement by statement: other
-- processes run theirs in between. The times of a row are those that the statements write, which the
-- program can read; a row with another text, which the program takes over at once, is left out.
use psychic_computing_machin.Common.{
  ℕ, ◌-◌, ◌*◌, Option, none, some, List, [], ◌∷◌, ltb, eqb, if◌then◌else◌,
}
use psychic_computing_machin.Remux.{second}

abbrev pub lock_stale_after : ℕ
lock_stale_after = 15 * 60 * second

-- What a process does next: the first INSERT, the SELECT, the second INSERT, the UPDATE of the row
-- that it has read, the release of a lock acquired at a time, or a new attempt after it got none.
pub data LockPhase : Type 0 where
  inserting looking retrying without : LockPhase
  stealing holding : ℕ → LockPhase

-- The DELETE, whichever row there is.
unfoldable pub release_lock : Option ℕ → Option ℕ
release_lock row = none

-- The row after the statement, and the next phase.
unfoldable pub lock_statement : ℕ → LockPhase → Option ℕ → Option ℕ × LockPhase
unfolding release_lock
lock_statement now inserting none = (some now, holding now)
lock_statement now inserting (some t) = (some t, looking)
lock_statement now looking none = (none, retrying)
lock_statement now looking (some t) =
    (some t, if ltb (now - t) lock_stale_after then without else stealing t)
lock_statement now retrying none = (some now, holding now)
lock_statement now retrying (some t) = (some t, without)
lock_statement now (stealing t) none = (none, without)
lock_statement now (stealing t) (some u) =
    if eqb u t then (some now, holding now) else (some u, without)
lock_statement now (holding a) row = (release_lock row, inserting)
lock_statement now without row = (row, inserting)

-- The time of the last statement is the clock.
pub record LockState : Type 0 where
  pub row : Option ℕ
  pub phase : ℕ → LockPhase
  pub clock : ℕ

abbrev pub set_phase : ℕ → LockPhase → (ℕ → LockPhase) → ℕ → LockPhase
set_phase p next phase q = if eqb p q then next else phase q

-- The process runs its next statement at the time.
unfoldable pub lock_step : ℕ → ℕ → LockState → LockState
unfolding lock_statement
lock_step p now s =
    let r = lock_statement now (s.phase p) s.row in
    record { row = r.0; phase = set_phase p r.1 s.phase; clock = now }

unfoldable pub lock_run : List (ℕ × ℕ) → LockState → LockState
unfolding lock_step
lock_run [] s = s
lock_run ((p, now) ∷ xs) s = lock_run xs (lock_step p now s)
