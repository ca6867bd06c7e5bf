-- ===== src/Remux/Calls.antt =====
-- The `Start` calls of gateway/internal/remux/remux.go that hold an entry in `pending` or a slot.
use psychic_computing_machin.Common.{
  ℕ, ◌+◌, Bool, true, false, Option, none, some, List, [], ◌∷◌, ◌++◌, if◌then◌else◌, ◌==◌, nat_eq,
}

-- `opening` until the second critical section, then `launched p` if it started process `p` and
-- `failing` if it did not; `releasing` is a failed call that has left `pending`.
pub data Phase : Type 0 where
  opening : Phase
  launched : ℕ → Phase
  failing : Phase
  releasing : Phase

pub record Call : Type 0 where
  pub ticket : ℕ
  pub stream_id : ℕ
  pub cancelled : Bool
  pub phase : Phase

-- A launched call has passed its slot on to the process.
abbrev pub holds_slot : Phase → ℕ
holds_slot opening = 1
holds_slot (launched p) = 0
holds_slot failing = 1
holds_slot releasing = 1

unfoldable pub holding : List Call → ℕ
holding [] = 0
holding (c ∷ cs) = holds_slot c.phase + holding cs

-- Whether the call stands in `pending`.
abbrev pub is_pending : Phase → Bool
is_pending releasing = false
is_pending opening = true
is_pending (launched p) = true
is_pending failing = true

unfoldable pub find_call : ℕ → List Call → Option Call
find_call t [] = none
find_call t (c ∷ cs) = if c.ticket == t then some c else find_call t cs

unfoldable pub set_phase : ℕ → Phase → List Call → List Call
set_phase t ph [] = []
set_phase t ph (c ∷ cs) =
    if c.ticket == t then (record c { phase = ph }) ∷ cs else c ∷ set_phase t ph cs

unfoldable pub remove_call : ℕ → List Call → List Call
remove_call t [] = []
remove_call t (c ∷ cs) = if c.ticket == t then cs else c ∷ remove_call t cs

-- `p.cancel()` for each pending call of the stream.
unfoldable pub cancel_calls : ℕ → List Call → List Call
cancel_calls stream_id [] = []
cancel_calls stream_id (c ∷ cs) =
    (if c.stream_id == stream_id
      then if is_pending c.phase then record c { cancelled = true } else c
      else c)
    ∷ cancel_calls stream_id cs

unfoldable pub cancel_all : List Call → List Call
cancel_all [] = []
cancel_all (c ∷ cs) =
    (if is_pending c.phase then record c { cancelled = true } else c) ∷ cancel_all cs

abbrev pub launched_process : Phase → List ℕ
launched_process (launched p) = p ∷ []
launched_process opening = []
launched_process failing = []
launched_process releasing = []

-- The processes that pending calls have launched.
unfoldable pub launched_by : ℕ → List Call → List ℕ
launched_by stream_id [] = []
launched_by stream_id (c ∷ cs) =
    (if c.stream_id == stream_id then launched_process c.phase else []) ++ launched_by stream_id cs

unfoldable pub launched_by_any : List Call → List ℕ
launched_by_any [] = []
launched_by_any (c ∷ cs) = launched_process c.phase ++ launched_by_any cs
