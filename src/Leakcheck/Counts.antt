-- ===== src/Leakcheck/Counts.antt =====
-- Recording what was found, in gateway/internal/leakcheck/scanner.go, counts no search.
use psychic_computing_machin.Common.{
  ℕ, ◌≡◌, refl, ◌∙◌, Bool, true, false, ◌||◌, not, List, [], ◌∷◌, eqb, nat_eq, list_eq, ◌==◌,
  if_keeps, option_keeps, Result, ok, err,
}
use psychic_computing_machin.Common.Text.{Bytes, ascii}
use psychic_computing_machin.Leakcheck.{
  AccessPointInfo, Match, classify, Scanner, ScanState, record_hits, record_texts, record_if_match,
  respond, post_notice, count_error, parse_issue_url, is_allowlisted, has_reply, record_match,
  auto_revoke, is_discussion, confidence_rank, Statement,
}

-- The searches are counted as before.
pub record IsCounted (s s' : ScanState) : Type 0 where
  pub queries : s'.query_errors ≡ s.query_errors
  pub gaps : s'.incomplete_queries ≡ s.incomplete_queries

IsCounted-trans : {a b c : ScanState} → IsCounted a b → IsCounted b c → IsCounted a c
IsCounted-trans h g = record { queries = g.queries ∙ h.queries; gaps = g.gaps ∙ h.gaps }

same_counts : {s : ScanState} → IsCounted s s
same_counts = record { queries = refl; gaps = refl }

result_keeps {ℓ κ ι} :
    {E : Type ℓ} {A : Type κ} {B : Type ι} (Q : B → Type 0) (r : Result E A) {f : E → B} {g : A → B}
    → ((e : E) → Q (f e))
    → ((a : A) → Q (g a))
    → Q (elim r [ err e ↦ f e | ok a ↦ g a ])
result_keeps Q (err e) hf hg = hf e
result_keeps Q (ok a) hf hg = hg a

post_notice-IsCounted :
    (sc : Scanner) (m : Match) (incident : ℕ) (url : Bytes) (s : ScanState)
    → IsCounted s (post_notice sc m incident url s).0
unfolding post_notice
post_notice-IsCounted sc m incident url s =
    option_keeps Q (parse_issue_url url) (λ _. same_counts)
      (λ issue _.
        option_keeps Q sc.allowlist (λ _. same_counts)
          (λ setting _.
            if_keeps Q (not (is_allowlisted setting issue)) (λ _. same_counts)
              (λ _.
                if_keeps Q (sc.fails s.steps Statement.looks_up) (λ _. same_counts)
                  (λ _.
                    if_keeps Q (has_reply url s.db) (λ _. same_counts)
                      (λ _.
                        option_keeps Q (sc.post_comment issue) (λ _. same_counts)
                          (λ comment _. record { queries = refl; gaps = refl }))))))
  where
    Q : ScanState × Bool → Type 0
    Q r = IsCounted s r.0

respond-IsCounted :
    (sc : Scanner) (m : Match) (incident : ℕ) (source url : Bytes) (s : ScanState)
    → IsCounted s (respond sc m incident source url s).0
unfolding respond
respond-IsCounted sc m incident source url s =
    option_keeps Q (sc.rotation_mode m.stream_id) (λ _. same_counts)
      (λ mode _.
        if_keeps Q (not (mode == ascii "auto")) (λ _. same_counts)
          (λ _.
            result_keeps Q (auto_revoke (sc.fails s.steps) (sc.now s.steps) m incident s.db).1
              (λ _. record { queries = refl; gaps = refl })
              (λ r.
                option_keeps Q sc.owner
                  (λ _.
                    if_keeps Q (not r.inactive || not (is_discussion source))
                      (λ _. record { queries = refl; gaps = refl })
                      (λ _.
                        IsCounted-trans (record { queries = refl; gaps = refl })
                          (post_notice-IsCounted sc m incident url _)))
                  (λ _ _. record { queries = refl; gaps = refl }))))
  where
    Q : ScanState × Bool → Type 0
    Q r = IsCounted s r.0

record_if_match-IsCounted :
    (sc : Scanner) (info : AccessPointInfo) (text source url : Bytes) (s : ScanState)
    → IsCounted s (record_if_match sc info text source url s).0
unfolding record_if_match
record_if_match-IsCounted sc info text source url s =
    option_keeps Q (classify sc.hash info sc.base_url text) (λ _. same_counts)
      (λ m _.
        result_keeps Q (record_match (sc.fails s.steps) sc.hash m source url s.db).1
          (λ _. record { queries = refl; gaps = refl })
          (λ r.
            option_keeps Q r.1 (λ _. record { queries = refl; gaps = refl })
              (λ id _.
                if_keeps Q (eqb (confidence_rank m.confidence) 2)
                  (λ _.
                    IsCounted-trans (record { queries = refl; gaps = refl })
                      (respond-IsCounted sc m id source url _))
                  (λ _. record { queries = refl; gaps = refl }))))
  where
    Q : ScanState × Bool → Type 0
    Q r = IsCounted s r.0

count_error-IsCounted : (r : ScanState × Bool) → IsCounted r.0 (count_error r)
count_error-IsCounted (s, true) = same_counts
count_error-IsCounted (s, false) = record { queries = refl; gaps = refl }

record_texts-IsCounted :
    (sc : Scanner) (info : AccessPointInfo) (source url : Bytes) (texts : List Bytes)
    (s : ScanState)
    → IsCounted s (record_texts sc info source url texts s)
unfolding record_texts
record_texts-IsCounted sc info source url [] s = same_counts
record_texts-IsCounted sc info source url (text ∷ texts) s =
    IsCounted-trans (record_if_match-IsCounted sc info text source url s) (
      IsCounted-trans (count_error-IsCounted (record_if_match sc info text source url s))
        (record_texts-IsCounted sc info source url texts _))

pub record_hits-IsCounted :
    (sc : Scanner) (info : AccessPointInfo) (source : Bytes) (hits : List (List Bytes × Bytes))
    (s : ScanState)
    → IsCounted s (record_hits sc info source hits s)
unfolding record_hits
record_hits-IsCounted sc info source [] s = same_counts
record_hits-IsCounted sc info source ((texts, url) ∷ hits) s =
    IsCounted-trans (record_texts-IsCounted sc info source url texts s)
      (record_hits-IsCounted sc info source hits _)
