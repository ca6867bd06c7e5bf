-- ===== src/Leakcheck/Tables.antt =====
-- The rows of the database that gateway/internal/leakcheck/store.go and actions.go read and write,
-- and the outcome of a statement.
use psychic_computing_machin.Common.{ℕ, Bool, true, false, Option, List}
use psychic_computing_machin.Common.Text.{Bytes}
use psychic_computing_machin.Common.Map.{Map}
use psychic_computing_machin.Leakcheck.Matcher.{Confidence}

pub record Finding : Type 0 where
  pub id : ℕ
  pub incident : Option ℕ
  pub confidence : Confidence
  pub matched_value : Bytes
  pub key : Bytes
  pub access_point : ℕ
  pub token : Option ℕ

pub data IncidentStatus : Type 0 where
  status_new status_probable status_confirmed status_dismissed status_resolved : IncidentStatus

-- `status IN ('new','probable','confirmed')`
unfoldable pub is_open : IncidentStatus → Bool
is_open status_new = true
is_open status_probable = true
is_open status_confirmed = true
is_open status_dismissed = false
is_open status_resolved = false

unfoldable pub is_confirmed : IncidentStatus → Bool
is_confirmed status_confirmed = true
is_confirmed _ = false

-- What `actions_taken` says: the status that was set, or the target of an action.
pub data LeakAction : Type 0 where
  set_to : IncidentStatus → LeakAction
  auto_revoked : Bytes → LeakAction
  replied : Bytes → LeakAction

pub record Incident : Type 0 where
  pub id : ℕ
  pub stream : ℕ
  pub token : Option ℕ
  pub status : IncidentStatus
  pub actions : List LeakAction

-- An access point, with the time of a revocation.
pub record PointRow : Type 0 where
  pub is_active : Bool
  pub revoked_at : Option ℕ

-- The tokens have the time of a revocation; the replies are kept by the URL that they answer.
pub record LeakDb : Type 0 where
  pub findings : List Finding
  pub incidents : List Incident
  pub tokens : Map ℕ (Option ℕ)
  pub points : Map ℕ PointRow
  pub replies : Map Bytes Bytes
  pub next_id : ℕ

-- The statements of a transaction, any of which the database may refuse; it then keeps what it had.
pub data Statement : Type 0 where
  looks_up groups writes notes commits : Statement

pub data LeakError : Type 0 where
  db_failed : LeakError
