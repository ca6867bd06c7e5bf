-- ===== src/Leakcheck/Run.antt =====
-- The loops of gateway/internal/leakcheck/scanner.go: `searchAndRecord` and `Run`.
use psychic_computing_machin.Common.{
  suc, Bool, true, false, ◌&&◌, not, Option, none, some, List, [], ◌∷◌, ◌++◌, length, eqb, nat_eq,
  list_eq, if◌then◌else◌,
}
use psychic_computing_machin.Common.Text.{Bytes, ascii}
use psychic_computing_machin.Leakcheck.Matcher.{AccessPointInfo, anchor}
use psychic_computing_machin.Leakcheck.Tables.{LeakDb}
use psychic_computing_machin.Leakcheck.Scan.{
  Outcome, refused, rate_limited, Search, LeakSource, Scanner, ScanError, loading, cancelled,
  exhausted, partial, ScanState, scope_qualifier, anchor_query, pr_source, record_hits,
}

abbrev pub is_limited : Outcome → Bool
is_limited rate_limited = true
is_limited _ = false

abbrev pub is_refused : Outcome → Bool
is_refused refused = true
is_refused _ = false

-- A search that is not limited: its failure and its gaps are counted and its hits recorded. The
-- second part says whether the scan ends here.
unfoldable pub take_search :
    Scanner → AccessPointInfo → Bytes → Search → ScanState → ScanState × Bool
unfolding record_hits
take_search sc info source answer s =
    let s' = record s { queries_made = suc s.queries_made } in
    let s'' = record s' {
      query_errors = if is_refused answer.outcome then suc s'.query_errors else s'.query_errors;
      incomplete_queries =
          if answer.incomplete then suc s'.incomplete_queries else s'.incomplete_queries;
    } in
    if is_limited answer.outcome
    then (s', true)
    else (record_hits sc info source answer.hits s'', eqb answer.remaining 0 && not sc.waits)

-- A step that is left out where the scan has ended.
abbrev pub unless_ended : (ScanState → ScanState × Bool) → ScanState × Bool → ScanState × Bool
unless_ended f (s, true) = (s, true)
unless_ended f (s, false) = f s

unfoldable pub search_and_record :
    Scanner → AccessPointInfo → Bytes → Bytes → Bytes → ScanState → ScanState × Bool
unfolding take_search pr_source
search_and_record sc info query code_source issue_source s =
    unless_ended
      (take_search sc info (pr_source issue_source) (sc.search_issues query (ascii "pr")))
      (unless_ended (take_search sc info issue_source (sc.search_issues query (ascii "issue")))
        (take_search sc info code_source (sc.search_code query) s))

abbrev pub touch_source : Scanner → LeakSource → ScanState → ScanState × Bool
touch_source sc src s =
    (if sc.touch_fails src.id then record s { record_errors = suc s.record_errors } else s, false)

unfoldable pub scan_source : Scanner → AccessPointInfo → LeakSource → ScanState → ScanState × Bool
unfolding search_and_record scope_qualifier anchor_query anchor
scan_source sc info src s =
    let query = anchor_query (anchor sc.base_url info) ++ (b' ' ∷ scope_qualifier src) in
    if eqb (length (scope_qualifier src)) 0
    then (s, false)
    else unless_ended (touch_source sc src) (
        search_and_record sc info query (ascii "github_code:" ++ src.identifier)
          (ascii "github_issue:" ++ src.identifier) s)

unfoldable pub scan_sources :
    Scanner → AccessPointInfo → List LeakSource → ScanState → ScanState × Bool
unfolding scan_source
scan_sources sc info [] s = (s, false)
scan_sources sc info (src ∷ sources) s =
    unless_ended (scan_sources sc info sources) (scan_source sc info src s)

unfoldable pub scan_point :
    Scanner → List LeakSource → AccessPointInfo → ScanState → ScanState × Bool
unfolding search_and_record scan_sources anchor_query anchor
scan_point sc sources info s = unless_ended (scan_sources sc info sources) (
    search_and_record sc info (anchor_query (anchor sc.base_url info)) (ascii "github_code")
      (ascii "github_issue") (record s { streams_checked = suc s.streams_checked }))

-- Nothing failed, was incomplete or was not recorded.
abbrev pub is_covered : ScanState → Bool
is_covered s = eqb s.query_errors 0 && (eqb s.incomplete_queries 0 && eqb s.record_errors 0)

unfoldable pub scan_points :
    Scanner → List LeakSource → List AccessPointInfo → ScanState → ScanState × Option ScanError
unfolding scan_point
scan_points sc sources [] s = (s, if is_covered s then none else some partial)
scan_points sc sources (info ∷ infos) s =
    let (s', ended) = scan_point sc sources info s in
    if sc.is_cancelled s.streams_checked
    then (s, some cancelled)
    else if ended
    then (s', some exhausted)
    else scan_points sc sources infos s'

abbrev pub new_scan : LeakDb → ScanState
new_scan db = record {
  db = db;
  posted = [];
  steps = 0;
  streams_checked = 0;
  queries_made = 0;
  findings_created = 0;
  auto_revoked_count = 0;
  replies_posted = 0;
  query_errors = 0;
  incomplete_queries = 0;
  record_errors = 0;
}

-- The access points and the sources are none where loading them fails.
unfoldable pub run_scan :
    Scanner
    → Option (List AccessPointInfo)
    → Option (List LeakSource)
    → LeakDb
    → ScanState × Option ScanError
unfolding scan_points
run_scan sc none sources db = (new_scan db, some loading)
run_scan sc (some infos) none db = (new_scan db, some loading)
run_scan sc (some infos) (some sources) db = scan_points sc sources infos (new_scan db)
