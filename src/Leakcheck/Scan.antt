-- ===== src/Leakcheck/Scan.antt =====
-- gateway/internal/leakcheck/scanner.go: a run over the access points. What GitHub answers, the
-- statements that the database refuses at each step, and when the context ends are arguments.
use psychic_computing_machin.Common.{
  ℕ, suc, ◌+◌, Bool, true, false, ◌||◌, not, Option, none, some, List, [], ◌∷◌, ◌++◌, take, drop,
  eqb, nat_eq, list_eq, ◌==◌, if◌then◌else◌, Result, ok, err,
}
use psychic_computing_machin.Common.Text.{Bytes, ascii, has_prefix, index}
use psychic_computing_machin.Leakcheck.Matcher.{AccessPointInfo, Match, classify}
use psychic_computing_machin.Leakcheck.Tables.{LeakDb, Statement}
use psychic_computing_machin.Leakcheck.Record.{confidence_rank, record_match}
use psychic_computing_machin.Leakcheck.Revoke.{auto_revoke, has_reply, record_reply}
use psychic_computing_machin.Leakcheck.Reply.{Issue, parse_issue_url, is_allowlisted}

pub data Outcome : Type 0 where
  answered refused rate_limited : Outcome

-- What a search returns: hits with their texts and URL, and what the answer says of itself.
pub record Search : Type 0 where
  pub outcome : Outcome
  pub hits : List (List Bytes × Bytes)
  pub incomplete : Bool
  pub remaining : ℕ

pub record LeakSource : Type 0 where
  pub id : ℕ
  pub provider : Bytes
  pub identifier : Bytes

-- A reading of a setting that fails is none; the allowlist that is not set is an inner none.
pub record Scanner : Type 0 where
  pub base_url : Bytes
  pub owner : Option ℕ
  pub hash : Bytes → Bytes
  pub waits : Bool
  pub search_code : Bytes → Search
  pub search_issues : Bytes → Bytes → Search
  pub post_comment : Issue → Option Bytes
  pub rotation_mode : ℕ → Option Bytes
  pub allowlist : Option (Option Bytes)
  pub now : ℕ → ℕ
  pub fails : ℕ → Statement → Bool
  pub touch_fails : ℕ → Bool
  pub is_cancelled : ℕ → Bool

pub data ScanError : Type 0 where
  loading cancelled exhausted partial : ScanError

-- The steps count what was recorded or tried to be; the comments posted have the URL they answer.
pub record ScanState : Type 0 where
  pub db : LeakDb
  pub posted : List Bytes
  pub steps : ℕ
  pub streams_checked : ℕ
  pub queries_made : ℕ
  pub findings_created : ℕ
  pub auto_revoked_count : ℕ
  pub replies_posted : ℕ
  pub query_errors : ℕ
  pub incomplete_queries : ℕ
  pub record_errors : ℕ

unfoldable pub scope_qualifier : LeakSource → Bytes
scope_qualifier src =
    if src.provider == ascii "github_repo"
    then ascii "repo:" ++ src.identifier
    else if src.provider == ascii "github_org"
    then ascii "org:" ++ src.identifier
    else []

unfoldable pub anchor_query : Bytes → Bytes
anchor_query a = b'"' ∷ (a ++ (b'"' ∷ []))

-- strings.Replace(source, "issue", "pr", 1)
unfoldable pub pr_source : Bytes → Bytes
pr_source source = elim (index source (ascii "issue")) [
  | none ↦ source
  | some i ↦ take i source ++ (ascii "pr" ++ drop (i + 5) source)
]

abbrev pub is_discussion : Bytes → Bool
is_discussion source =
    has_prefix source (ascii "github_issue") || has_prefix source (ascii "github_pr")

abbrev pub is_ok {ℓ κ} : {E : Type ℓ} {A : Type κ} → Result E A → Bool
is_ok (ok a) = true
is_ok (err e) = false

abbrev pub replied_at : Bytes → ScanState → ScanState
replied_at url s = record s { posted = url ∷ s.posted; replies_posted = suc s.replies_posted }

-- The result says whether the response ended without an error.
unfoldable pub post_notice : Scanner → Match → ℕ → Bytes → ScanState → ScanState × Bool
unfolding parse_issue_url is_allowlisted has_reply record_reply
post_notice sc m incident url s = elim (parse_issue_url url) [
  | none ↦ (s, true)
  | some issue ↦ elim sc.allowlist [
    | none ↦ (s, false)
    | some setting ↦
        if not (is_allowlisted setting issue)
        then (s, true)
        else if sc.fails s.steps Statement.looks_up
        then (s, false)
        else if has_reply url s.db
        then (s, true)
        else elim (sc.post_comment issue) [
          | none ↦ (s, false)
          | some comment ↦
              let (db, stored) = record_reply (sc.fails s.steps) url incident comment s.db in
              (replied_at url (record s { db = db }), is_ok stored)
        ]
  ]
]

unfoldable pub respond : Scanner → Match → ℕ → Bytes → Bytes → ScanState → ScanState × Bool
unfolding auto_revoke post_notice
respond sc m incident source url s = elim (sc.rotation_mode m.stream_id) [
  | none ↦ (s, false)
  | some mode ↦
      if not (mode == ascii "auto")
      then (s, true)
      else let (db, revoked) = auto_revoke (sc.fails s.steps) (sc.now s.steps) m incident s.db in
        elim revoked [
          | err _ ↦ (record s { db = db }, false)
          | ok r ↦
              let s' = record s {
                db = db;
                auto_revoked_count =
                    if r.revoked_now then suc s.auto_revoked_count else s.auto_revoked_count;
              } in
              elim sc.owner [
                | some _ ↦ (s', true)
                | none ↦
                    if not r.inactive || not (is_discussion source)
                    then (s', true)
                    else post_notice sc m incident url s'
              ]
        ]
]

abbrev pub next_step : ScanState → ScanState
next_step s = record s { steps = suc s.steps }

unfoldable pub record_if_match :
    Scanner → AccessPointInfo → Bytes → Bytes → Bytes → ScanState → ScanState × Bool
unfolding classify record_match respond confidence_rank
record_if_match sc info text source url s = elim (classify sc.hash info sc.base_url text) [
  | none ↦ (s, true)
  | some m ↦
      let (db, recorded) = record_match (sc.fails s.steps) sc.hash m source url s.db in
      elim recorded [
        | err _ ↦ (next_step (record s { db = db }), false)
        | ok (created, incident) ↦
            let s' = next_step (record s {
              db = db;
              findings_created = if created then suc s.findings_created else s.findings_created;
            }) in
            elim incident [
              | none ↦ (s', true)
              | some id ↦
                  if eqb (confidence_rank m.confidence) 2
                  then respond sc m id source url s'
                  else (s', true)
            ]
      ]
]

abbrev pub count_error : ScanState × Bool → ScanState
count_error (s, true) = s
count_error (s, false) = record s { record_errors = suc s.record_errors }

unfoldable pub record_texts :
    Scanner → AccessPointInfo → Bytes → Bytes → List Bytes → ScanState → ScanState
unfolding record_if_match
record_texts sc info source url [] s = s
record_texts sc info source url (text ∷ texts) s =
    record_texts sc info source url texts (count_error (record_if_match sc info text source url s))

unfoldable pub record_hits :
    Scanner → AccessPointInfo → Bytes → List (List Bytes × Bytes) → ScanState → ScanState
unfolding record_texts
record_hits sc info source [] s = s
record_hits sc info source ((texts, url) ∷ hits) s =
    record_hits sc info source hits (record_texts sc info source url texts s)
