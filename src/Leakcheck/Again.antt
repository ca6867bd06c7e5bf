-- ===== src/Leakcheck/Again.antt =====
-- A finding that `RecordMatch` of gateway/internal/leakcheck/store.go sees again.
use psychic_computing_machin.Common.{
  some_injective, ℕ, ◌≡◌, refl, sym, ap, subst, ◌∙◌, Bool, true, false, ◌&&◌, not, Option, none,
  some, List, [], ◌∷◌, leb, eqb, nat_eq, list_eq, ◌==◌, ==_iff, eqb_iff, if◌then◌else◌, if_keeps,
  Bool-cases, inl, inr, option_keeps, Result, ok, err, arith,
}
use psychic_computing_machin.Common.Text.{Bytes}
use psychic_computing_machin.Leakcheck.{
  Match, Confidence, mention, probable, confirmed, dedupe_key, LeakDb, LeakError, db_failed,
  Finding, Statement, looks_up, groups, writes, commits, find_finding, update_finding, upgrade,
  new_finding, store_finding, is_known, incident_id, incident_of, incident_for, find_incident,
  default_status, find_or_create_incident, confidence_rank, record_match, coalesce,
}

same_key : (k : Bytes) → (k == k) ≡ true
same_key k = (==_iff k k).1 refl

module _ (key : Bytes) (m : Match) (incident : Option ℕ) where
  skipped :
      (g : Finding) (rest : List Finding) (b : Bool)
      → (g.key == key) ≡ false
      → find_finding key ((if b then upgrade m incident g else g) ∷ rest) ≡ find_finding key rest
  unfolding find_finding
  skipped g rest true other = rw other refl
  skipped g rest false other = rw other refl

  taken :
      (g f : Finding) (rest : List Finding)
      → (g.key == key) ≡ true
      → some g ≡ some f
      → find_finding key ((if eqb g.id f.id then upgrade m incident g else g) ∷ rest)
        ≡ some (upgrade m incident f)
  unfolding find_finding
  taken g f rest here h =
      subst
        (λ x.
          find_finding key ((if eqb g.id x.id then upgrade m incident g else g) ∷ rest)
          ≡ some (upgrade m incident x))
        (some_injective g f h) (rw ((eqb_iff g.id g.id).1 refl) (rw here refl))

  -- The finding that an update leaves under its key.
  find-update :
      (fs : List Finding) (f : Finding)
      → find_finding key fs ≡ some f
      → find_finding key (update_finding f.id m incident fs) ≡ some (upgrade m incident f)
  unfolding find_finding update_finding
  find-update [] f h = ground arith
  find-update (g ∷ gs) f h = elim (Bool-cases (g.key == key)) [
    | inl here ↦ taken g f _ here (sym (head_found here) ∙ h)
    | inr other ↦
        skipped g _ (eqb g.id f.id) other ∙ find-update gs f (sym (head_skipped other) ∙ h)
  ]
    where
      head_found :
          (g.key == key) ≡ true → (if g.key == key then some g else find_finding key gs) ≡ some g
      head_found e = rw e refl

      head_skipped :
          (g.key == key) ≡ false
          → (if g.key == key then some g else find_finding key gs) ≡ find_finding key gs
      head_skipped e = rw e refl

pub findings-incident_of : (m : Match) (db : LeakDb) → (incident_of m db).0.findings ≡ db.findings
unfolding incident_of incident_for find_or_create_incident
findings-incident_of m db = by_confidence m.confidence
  where
    created :
        (c : Confidence)
        → (find_or_create_incident m (default_status c) db).0.findings ≡ db.findings
    created c =
        option_keeps (λ (r : LeakDb × ℕ). r.0.findings ≡ db.findings)
          (find_incident m.stream_id m.token_id db.incidents) (λ _. refl) (λ _ _. refl)

    by_confidence : (c : Confidence) → (incident_for m c db).0.findings ≡ db.findings
    by_confidence mention = refl
    by_confidence probable = created probable
    by_confidence confirmed = created confirmed

-- A match that outranks something has an incident.
ranked :
    (m : Match) (db : LeakDb) (n : ℕ) (o : Option ℕ)
    → leb (confidence_rank m.confidence) n ≡ false
    → coalesce (incident_of m db).1 o ≡ (incident_of m db).1
unfolding incident_of incident_for confidence_rank
ranked m db n o = by_confidence m.confidence
  where
    by_confidence :
        (c : Confidence)
        → leb (confidence_rank c) n ≡ false
        → coalesce (incident_for m c db).1 o ≡ (incident_for m c db).1
    by_confidence mention h = ground arith
    by_confidence probable h = refl
    by_confidence confirmed h = refl

-- A finding is kept under the key, at least as strong as the match, with the incident.
record IsKept (key : Bytes) (m : Match) (incident : Option ℕ) (db : LeakDb) : Type 0 where
  found : Finding
  kept : find_finding key db.findings ≡ some found
  strong : leb (confidence_rank m.confidence) (confidence_rank found.confidence) ≡ true
  same : found.incident ≡ incident

same_rank : (n : ℕ) → leb n n ≡ true
same_rank n = ground arith

store-IsKept :
    (key : Bytes) (m : Match) (db : LeakDb) (known : Option Finding)
    → find_finding key db.findings ≡ known
    → is_known m known ≡ false
    → IsKept key m
        (incident_of m db).1
        (store_finding key known m (incident_of m db).1 (incident_of m db).0)
unfolding store_finding find_finding
store-IsKept key m db none e weak = record {
  found = new_finding (incident_of m db).0.next_id key m (incident_of m db).1;
  kept = rw (same_key key) refl;
  strong = same_rank (confidence_rank m.confidence);
  same = refl;
}
store-IsKept key m db (some f) e weak = record {
  found = upgrade m (incident_of m db).1 f;
  kept =
      find-update key m (incident_of m db).1 _ f
        (ap (find_finding key) (findings-incident_of m db) ∙ e);
  strong = same_rank (confidence_rank m.confidence);
  same = ranked m db (confidence_rank f.confidence) f.incident weak;
}

record_match-IsKept :
    (fails : Statement → Bool) (hash : Bytes → Bytes) (m : Match) (source url : Bytes) (db : LeakDb)
    (created : Bool) (incident : Option ℕ)
    → (record_match fails hash m source url db).1 ≡ ok (created, incident)
    → IsKept
        (dedupe_key hash source url m.matched_value)
        m
        incident
        (record_match fails hash m source url db).0
unfolding record_match
record_match-IsKept fails hash m source url db created incident =
    if_keeps Q (fails looks_up) (λ _. refused)
      (λ _.
        if_keeps Q (is_known m known) (λ strong h. found known refl strong (same_incident h))
          (λ weak.
            if_keeps Q (not (eqb (confidence_rank m.confidence) 0) && fails groups) (λ _. refused)
              (λ _.
                if_keeps Q (fails writes) (λ _. refused)
                  (λ _.
                    if_keeps Q (fails commits) (λ _. refused)
                      (λ _ h.
                        subst
                          (λ i.
                            IsKept key m i
                              (store_finding key known m (incident_of m db).1 (incident_of m db).0))
                          (same_incident h) (store-IsKept key m db known refl weak))))))
  where
    key : Bytes
    key = dedupe_key hash source url m.matched_value

    known : Option Finding
    known = find_finding key db.findings

    Q : LeakDb × Result LeakError (Bool × Option ℕ) → Type 0
    Q r = r.1 ≡ ok (created, incident) → IsKept key m incident r.0

    refused : {db' : LeakDb} → Q (db', err db_failed)
    refused h = ground arith

    same_incident :
        {c : Bool} {i : Option ℕ}
        → ◌≡◌ {A = Result LeakError (Bool × Option ℕ)} (ok (c, i)) (ok (created, incident))
        → i ≡ incident
    same_incident h = ground arith

    found :
        (o : Option Finding)
        → known ≡ o
        → is_known m o ≡ true
        → incident_id o ≡ incident
        → IsKept key m incident db
    found none e strong same = ground arith
    found (some f) e strong same = record { found = f; kept = e; strong = strong; same = same }

-- A match that was recorded, or known, is known when it is recorded again: the database stays as it
-- is, nothing is created, and the incident is the same.
pub record_match_again :
    (fails fails' : Statement → Bool) (hash : Bytes → Bytes) (m : Match) (source url : Bytes)
    (db : LeakDb) (created : Bool) (incident : Option ℕ)
    → (record_match fails hash m source url db).1 ≡ ok (created, incident)
    → fails' looks_up ≡ false
    → let db' = (record_match fails hash m source url db).0 in
      record_match fails' hash m source url db' ≡ (db', ok (false, incident))
unfolding record_match
record_match_again fails fails' hash m source url db created incident h up =
    again (record_match fails hash m source url db).0
      (record_match-IsKept fails hash m source url db created incident h)
  where
    again :
        (db' : LeakDb)
        → IsKept (dedupe_key hash source url m.matched_value) m incident db'
        → record_match fails' hash m source url db' ≡ (db', ok (false, incident))
    again db' k =
        if_keeps Q (fails' looks_up) (λ down. elim (true_false up down) [ ])
          (λ _.
            if_keeps Q (is_known m known) (λ _. ap answer (ap incident_id k.kept ∙ k.same))
              (λ weak. elim (true_false weak (ap (is_known m) k.kept ∙ k.strong)) [ ]))
      where
        known : Option Finding
        known = find_finding (dedupe_key hash source url m.matched_value) db'.findings

        Q : LeakDb × Result LeakError (Bool × Option ℕ) → Type 0
        Q r = r ≡ (db', ok (false, incident))

        answer : Option ℕ → LeakDb × Result LeakError (Bool × Option ℕ)
        answer i = (db', ok (false, i))

        true_false : {b : Bool} → b ≡ false → b ≡ true → ⊥
        true_false {b} e g = ground arith
