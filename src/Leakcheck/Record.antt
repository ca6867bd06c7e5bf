-- ===== src/Leakcheck/Record.antt =====
-- `RecordMatch` and `findOrCreateIncident` of gateway/internal/leakcheck/store.go.
use psychic_computing_machin.Common.{
  ℕ, suc, Bool, true, false, ◌&&◌, not, Option, none, some, List, [], ◌∷◌, leb, eqb, nat_eq,
  list_eq, ◌==◌, if◌then◌else◌, Result, ok, err,
}
use psychic_computing_machin.Common.Text.{Bytes}
use psychic_computing_machin.Leakcheck.Matcher.{
  Confidence, mention, probable, confirmed, Match, dedupe_key,
}
use psychic_computing_machin.Leakcheck.Tables.{
  Finding, IncidentStatus, status_new, status_probable, is_open, set_to, Incident, LeakDb,
  Statement, looks_up, groups, writes, commits, LeakError, db_failed,
}

unfoldable pub confidence_rank : Confidence → ℕ
confidence_rank confirmed = 2
confidence_rank probable = 1
confidence_rank mention = 0

unfoldable pub find_finding : Bytes → List Finding → Option Finding
find_finding key [] = none
find_finding key (f ∷ fs) = if f.key == key then some f else find_finding key fs

abbrev pub same_token : Option ℕ → Option ℕ → Bool
same_token none none = true
same_token (some i) (some j) = eqb i j
same_token _ _ = false

-- An open incident of the stream with the token, or with none.
unfoldable pub is_group : ℕ → Option ℕ → Incident → Bool
unfolding is_open
is_group stream token i = eqb i.stream stream && (same_token i.token token && is_open i.status)

unfoldable pub find_incident : ℕ → Option ℕ → List Incident → Option Incident
unfolding is_group
find_incident stream token [] = none
find_incident stream token (i ∷ is) =
    if is_group stream token i then some i else find_incident stream token is

-- The incident's id.
unfoldable pub find_or_create_incident : Match → IncidentStatus → LeakDb → LeakDb × ℕ
unfolding find_incident
find_or_create_incident m status db = elim (find_incident m.stream_id m.token_id db.incidents) [
  | some i ↦ (db, i.id)
  | none ↦ (
    record db {
      incidents =
          record {
            id = db.next_id;
            stream = m.stream_id;
            token = m.token_id;
            status = status;
            actions = set_to status ∷ [];
          }
          ∷ db.incidents;
      next_id = suc db.next_id;
    },
    db.next_id,
  )
]

abbrev pub default_status : Confidence → IncidentStatus
default_status confirmed = status_probable
default_status _ = status_new

-- Only a mention has no incident.
unfoldable pub incident_for : Match → Confidence → LeakDb → LeakDb × Option ℕ
unfolding find_or_create_incident
incident_for m mention db = (db, none)
incident_for m c db =
    let (db', id) = find_or_create_incident m (default_status c) db in (db', some id)

unfoldable pub incident_of : Match → LeakDb → LeakDb × Option ℕ
unfolding incident_for
incident_of m db = incident_for m m.confidence db

-- COALESCE(?, ...)
abbrev pub coalesce : Option ℕ → Option ℕ → Option ℕ
coalesce none old = old
coalesce (some i) old = some i

abbrev pub upgrade : Match → Option ℕ → Finding → Finding
upgrade m incident f = record f {
  confidence = m.confidence;
  matched_value = m.matched_value;
  incident = coalesce incident f.incident;
  token = coalesce m.token_id f.token;
}

unfoldable pub update_finding : ℕ → Match → Option ℕ → List Finding → List Finding
update_finding id m incident [] = []
update_finding id m incident (f ∷ fs) =
    let rest = update_finding id m incident fs in
    (if eqb f.id id then upgrade m incident f else f) ∷ rest

abbrev pub new_finding : ℕ → Bytes → Match → Option ℕ → Finding
new_finding id key m incident = record {
  id = id;
  incident = incident;
  confidence = m.confidence;
  matched_value = m.matched_value;
  key = key;
  access_point = m.access_point_id;
  token = m.token_id;
}

unfoldable pub store_finding : Bytes → Option Finding → Match → Option ℕ → LeakDb → LeakDb
unfolding update_finding
store_finding key (some f) m incident db = record db {
  findings = update_finding f.id m incident db.findings;
}
store_finding key none m incident db = record db {
  findings = new_finding db.next_id key m incident ∷ db.findings;
  next_id = suc db.next_id;
}

abbrev pub is_known : Match → Option Finding → Bool
is_known m none = false
is_known m (some f) = leb (confidence_rank m.confidence) (confidence_rank f.confidence)

abbrev pub incident_id : Option Finding → Option ℕ
incident_id none = none
incident_id (some f) = f.incident

-- Whether a finding was created or upgraded, and the incident it belongs to.
unfoldable pub record_match :
    (Statement → Bool)
    → (Bytes → Bytes)
    → Match
    → Bytes
    → Bytes
    → LeakDb
    → LeakDb × Result LeakError (Bool × Option ℕ)
unfolding find_finding confidence_rank incident_of store_finding dedupe_key
record_match fails hash m source source_url db =
    let key = dedupe_key hash source source_url m.matched_value in
    let known = find_finding key db.findings in
    let (db', incident) = incident_of m db in
    if fails looks_up
    then (db, err db_failed)
    else if is_known m known
    then (db, ok (false, incident_id known))
    else if not (eqb (confidence_rank m.confidence) 0) && fails groups
    then (db, err db_failed)
    else if fails writes
    then (db, err db_failed)
    else if fails commits
    then (db, err db_failed)
    else (store_finding key known m incident db', ok (true, incident))
