-- ===== src/Examples/ScanRuns.antt =====
-- A leak of one token, as gateway/internal/leakcheck records it and answers it.
use psychic_computing_machin.Common.{
  ℕ, List, ◌≡◌, refl, Bool, true, false, none, some, [], ◌∷◌, arith, nat_eq, ok, ◌⊎◌,
}
use psychic_computing_machin.Common.Text.{Bytes, ascii}
use psychic_computing_machin.Leakcheck.{
  AccessPointInfo, confirmed, Match, LeakDb, Statement, record_match, auto_revoke, confidence_rank,
  Search, answered, LeakSource, Scanner, lock_run, lock_step,
}
use psychic_computing_machin.Leakcheck.Again.{record_match_again}
use psychic_computing_machin.Leakcheck.Grouping.{
  IsGrouped, count_open, count_confirmed, record_match-IsGrouped,
}
use psychic_computing_machin.Leakcheck.Revoked.{IsOnly, IsOpen, auto_revoke-IsOnly}
use psychic_computing_machin.Leakcheck.Exclusion.{IsTimelyRun, unlocked, lock_exclusive}

abbrev works : Statement → Bool
works s = false

abbrev leak : Match
leak = record {
  confidence = confirmed;
  access_point_id = 4;
  stream_id = 2;
  token_id = some 9;
  matched_value = ascii "https://tv/live";
}

abbrev empty : LeakDb
empty = record {
  findings = [];
  incidents = [];
  tokens = (9, none) ∷ [];
  points = [];
  replies = [];
  next_id = 1;
}

abbrev whole : Bytes → Bytes
whole text = text

abbrev issue : Bytes
issue = ascii "https://github.com/a/b/issues/1"

abbrev recorded : LeakDb
recorded = (record_match works whole leak (ascii "github_issue") issue empty).0

record_match_again_example :
    record_match works whole leak (ascii "github_issue") issue recorded
    ≡ (recorded, ok (false, some 1))
unfolding record_match
record_match_again_example =
    record_match_again works works whole leak (ascii "github_issue") issue empty true (some 1) refl
      refl

empty-IsGrouped : IsGrouped empty
unfolding count_open
empty-IsGrouped stream token = ground arith

record_match-IsGrouped_example :
    IsGrouped recorded × (count_confirmed recorded.incidents ≡ count_confirmed empty.incidents)
record_match-IsGrouped_example =
    record_match-IsGrouped works whole leak (ascii "github_issue") issue empty empty-IsGrouped

auto_revoke-IsOnly_example :
    IsOnly leak recorded (auto_revoke works 5 leak 1 recorded).0
    × (((auto_revoke works 5 leak 1 recorded).0 ≡ recorded)
        ⊎ ((confidence_rank leak.confidence ≡ 2) × IsOpen 1 recorded))
auto_revoke-IsOnly_example = auto_revoke-IsOnly works 5 leak 1 recorded

abbrev nothing : Search
nothing = record { outcome = answered; hits = []; incomplete = false; remaining = 5 }

abbrev hit : Search
hit = record {
  outcome = answered;
  hits = ((ascii "x https://tv/live y" ∷ []), issue) ∷ [];
  incomplete = false;
  remaining = 5;
}

abbrev point : AccessPointInfo
point = record {
  id = 4;
  stream_id = 2;
  public_path = ascii "live";
  visibility = ascii "private";
  tokens = [];
}

abbrev scanner : Scanner
scanner = record {
  base_url = ascii "https://tv/";
  owner = none;
  hash = whole;
  waits = true;
  search_code = λ query. nothing;
  search_issues = λ query kind. hit;
  post_comment = λ i. none;
  rotation_mode = λ id. some (ascii "auto");
  allowlist = some none;
  now = λ n. n;
  fails = λ n s. false;
  touch_fails = λ id. false;
  is_cancelled = λ n. false;
}

abbrev one_repo : LeakSource
one_repo = record { id = 1; provider = ascii "github_repo"; identifier = ascii "a/b" }

-- The first of two processes gets the lock.
abbrev two_runs : List (ℕ × ℕ)
two_runs = (0, 5) ∷ (1, 6) ∷ []

two_runs-IsTimely : IsTimelyRun two_runs (unlocked none)
unfolding IsTimelyRun lock_step
two_runs-IsTimely = (
  record { later = ground arith; fresh = λ p a e. ground arith },
  (record { later = ground arith; fresh = λ p a e. ground arith }, tt),
)

lock_exclusive_example : ◌≡◌ {A = ℕ} 0 0
unfolding lock_run
lock_exclusive_example = lock_exclusive none two_runs 0 0 5 5 two_runs-IsTimely refl refl
