-- ===== src/Leakcheck/Revoke.antt =====
-- gateway/internal/leakcheck/actions.go: the revocation of a leaked credential, the notice for an
-- issue, and the reply that is posted once.
use psychic_computing_machin.Common.{
  ℕ, Bool, true, false, ◌||◌, not, Option, none, some, List, [], ◌∷◌, ◌++◌, eqb, nat_eq, list_eq,
  if◌then◌else◌, Result, ok, err,
}
use psychic_computing_machin.Common.Text.{Bytes, ascii}
use psychic_computing_machin.Common.Map.{Map, lookup, insert}
use psychic_computing_machin.Common.Decimal.{format_nat}
use psychic_computing_machin.Leakcheck.Matcher.{Match}
use psychic_computing_machin.Leakcheck.Tables.{
  status_confirmed, is_open, is_confirmed, set_to, auto_revoked, replied, Incident, PointRow,
  LeakDb, Statement, looks_up, writes, notes, commits, LeakError, db_failed,
}
use psychic_computing_machin.Leakcheck.Record.{confidence_rank}

unfoldable pub incident_by_id : ℕ → List Incident → Option Incident
incident_by_id id [] = none
incident_by_id id (i ∷ is) = if eqb i.id id then some i else incident_by_id id is

unfoldable pub update_incident : ℕ → (Incident → Incident) → List Incident → List Incident
update_incident id f [] = []
update_incident id f (i ∷ is) =
    let rest = update_incident id f is in (if eqb i.id id then f i else i) ∷ rest

-- The table after the UPDATE, and whether it affected a row.
unfoldable pub revoke_row : ℕ → ℕ → Option (Option ℕ) → Map ℕ (Option ℕ) → Map ℕ (Option ℕ) × Bool
revoke_row now id none tokens = (tokens, false)
revoke_row now id (some (some t)) tokens = (tokens, false)
revoke_row now id (some none) tokens = (insert id (some now) tokens, true)

unfoldable pub revoke_token : ℕ → ℕ → Map ℕ (Option ℕ) → Map ℕ (Option ℕ) × Bool
unfolding revoke_row
revoke_token now id tokens = revoke_row now id (lookup id tokens) tokens

abbrev pub since : ℕ → Option ℕ → Option ℕ
since now none = some now
since now (some t) = some t

unfoldable pub revoke_point : ℕ → ℕ → Map ℕ PointRow → Map ℕ PointRow × Bool
revoke_point now id points = elim (lookup id points) [
  | none ↦ (points, false)
  | some p ↦
      if p.is_active
      then (
        insert id (record { is_active = false; revoked_at = since now p.revoked_at }) points,
        true,
      )
      else (points, false)
]

-- The credential that leaked: the token, or the access point where the match names none.
unfoldable pub revoke_target : ℕ → Match → LeakDb → LeakDb × Bool
unfolding revoke_token revoke_point
revoke_target now m db = elim m.token_id [
  | some id ↦
      (let (tokens, n) = revoke_token now id db.tokens in (record db { tokens = tokens }, n))
  | none ↦
      (let (points, n) = revoke_point now m.access_point_id db.points in
        (record db { points = points }, n))
]

unfoldable pub target_name : Match → Bytes
unfolding format_nat
target_name m = elim m.token_id [
  | some id ↦ ascii "token:" ++ format_nat id
  | none ↦ ascii "access_point:" ++ format_nat m.access_point_id
]

abbrev pub confirm_incident : Bool → Bytes → Incident → Incident
confirm_incident revoked target i = record i {
  status = status_confirmed;
  actions = i.actions ++ ((if revoked then auto_revoked target else set_to status_confirmed) ∷ []);
}

-- What the call answers: the target, whether it is inactive now, and whether this call revoked it.
pub record Revocation : Type 0 where
  pub target : Bytes
  pub inactive : Bool
  pub revoked_now : Bool

abbrev pub untouched : Revocation
untouched = record { target = []; inactive = false; revoked_now = false }

unfoldable pub auto_revoke :
    (Statement → Bool) → ℕ → Match → ℕ → LeakDb → LeakDb × Result LeakError Revocation
unfolding confidence_rank incident_by_id is_open is_confirmed revoke_target target_name
    update_incident
auto_revoke fails now m incident db =
    let target = target_name m in
    let (db', revoked) = revoke_target now m db in
    let result : Result LeakError Revocation =
      ok (record { target = target; inactive = true; revoked_now = revoked }) in
    if not (eqb (confidence_rank m.confidence) 2)
    then (db, ok untouched)
    else if fails looks_up
    then (db, err db_failed)
    else elim (incident_by_id incident db.incidents) [
      | none ↦ (db, err db_failed)
      | some i ↦
          if not (is_open i.status)
          then (db, ok untouched)
          else if fails writes
          then (db, err db_failed)
          else if revoked || not (is_confirmed i.status)
          then if fails notes || fails commits then (db, err db_failed) else (
            record db' {
              incidents = update_incident incident (confirm_incident revoked target) db'.incidents;
            },
            result,
          )
          else if fails commits
          then (db, err db_failed)
          else (db', result)
    ]

unfoldable pub has_reply : Bytes → LeakDb → Bool
has_reply url db = elim (lookup url db.replies) [ none ↦ false | some _ ↦ true ]

-- INSERT OR IGNORE keeps the reply that is there.
unfoldable pub record_reply :
    (Statement → Bool) → Bytes → ℕ → Bytes → LeakDb → LeakDb × Result LeakError Bool
unfolding has_reply update_incident
record_reply fails url incident comment db =
    if fails writes || (fails notes || fails commits) then (db, err db_failed) else (
      record db {
        replies = if has_reply url db then db.replies else insert url comment db.replies;
        incidents =
            update_incident incident
              (λ i. record i { actions = i.actions ++ (replied comment ∷ []) }) db.incidents;
      },
      ok true,
    )
