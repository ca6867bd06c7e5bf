-- ===== src/Leakcheck/Coverage.antt =====
-- What a run of gateway/internal/leakcheck/scanner.go has searched when it reports no error.
use psychic_computing_machin.Common.{
  ◌≡◌, ◌≢◌, Bool, false, List, ◌∷◌, ◌++◌, length, nat_eq, list_eq, All,
}
use psychic_computing_machin.Common.Text.{Bytes, ascii}
use psychic_computing_machin.Leakcheck.{
  AccessPointInfo, anchor, answered, Search, LeakSource, Scanner, ScanState, scope_qualifier,
  anchor_query,
}

-- No search failed and none was incomplete.
record IsClean (s : ScanState) : Type 0 where
  queries : s.query_errors ≡ 0
  gaps : s.incomplete_queries ≡ 0

-- The search was answered, in full.
pub record IsFull (answer : Search) : Type 0 where
  pub answered : answer.outcome ≡ answered
  pub complete : answer.incomplete ≡ false

-- The three searches for a query.
pub record IsSearched (sc : Scanner) (query : Bytes) : Type 0 where
  pub code : IsFull (sc.search_code query)
  pub issues : IsFull (sc.search_issues query (ascii "issue"))
  pub pulls : IsFull (sc.search_issues query (ascii "pr"))

-- The searches for an access point: everywhere, and in each source of a kind that is searched.
pub IsScanned : Scanner → List LeakSource → AccessPointInfo → Type 0
IsScanned sc sources info =
    IsSearched sc (anchor_query (anchor sc.base_url info))
    × All
        (λ src.
          (length (scope_qualifier src) ≢ 0)
          → IsSearched sc (anchor_query (anchor sc.base_url info) ++ (b' ' ∷ scope_qualifier src)))
        sources

-- A run that goes on with no failure counted had none before.
Goes : (Type 0) → ScanState × Bool → Type 0
Goes A r = IsClean r.0 → r.1 ≡ false → A

IsScoped : Scanner → AccessPointInfo → LeakSource → Type 0
IsScoped sc info src =
    (length (scope_qualifier src) ≢ 0)
    → IsSearched sc (anchor_query (anchor sc.base_url info) ++ (b' ' ∷ scope_qualifier src))
