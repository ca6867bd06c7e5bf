-- ===== src/Leakcheck/Grouping.antt =====
-- How `findOrCreateIncident` of gateway/internal/leakcheck/store.go groups findings into incidents.
use psychic_computing_machin.Common.{
  and_split, none-some, ℕ, zero, suc, ◌≤◌, ◌≡◌, refl, sym, ap, subst, Bool, true, false, ◌&&◌, not,
  Option, none, some, List, [], ◌∷◌, eqb, eqb_iff, nat_eq, if◌then◌else◌, if_keeps, option_keeps,
  Result, arith,
}
use psychic_computing_machin.Common.Text.{Bytes}
use psychic_computing_machin.Leakcheck.{
  Match, Confidence, mention, probable, confirmed, dedupe_key, LeakDb, LeakError, Finding, Incident,
  IncidentStatus, is_open, is_confirmed, Statement, looks_up, groups, writes, commits, find_finding,
  store_finding, is_known, incident_of, incident_for, find_or_create_incident, is_group,
  find_incident, same_token, confidence_rank, record_match, set_to,
}

-- The open incidents of the stream with the token, or with none.
unfoldable pub count_open : ℕ → Option ℕ → List Incident → ℕ
unfolding is_group
count_open stream token [] = zero
count_open stream token (i ∷ is) =
    let rest = count_open stream token is in if is_group stream token i then suc rest else rest

-- The open incidents that are confirmed.
unfoldable pub count_confirmed : List Incident → ℕ
count_confirmed [] = zero
count_confirmed (i ∷ is) =
    let rest = count_confirmed is in if is_confirmed i.status then suc rest else rest

abbrev pub IsGrouped : LeakDb → Type 0
IsGrouped db = (stream : ℕ) (token : Option ℕ) → count_open stream token db.incidents ≤ 1

same_token_sound : (a b : Option ℕ) → same_token a b ≡ true → a ≡ b
same_token_sound none none h = refl
same_token_sound none (some j) h = ground arith
same_token_sound (some i) none h = ground arith
same_token_sound (some i) (some j) h = ap some ((eqb_iff i j).0 h)

group_of :
    (stream : ℕ) (token : Option ℕ) (i : Incident)
    → is_group stream token i ≡ true
    → (i.stream ≡ stream) × (i.token ≡ token)
unfolding is_group
group_of stream token i h =
    let outer = and_split (eqb i.stream stream) _ h in
    let inner = and_split (same_token i.token token) (is_open i.status) outer.1 in
    ((eqb_iff i.stream stream).0 outer.0, same_token_sound i.token token inner.0)

none_counted :
    (stream : ℕ) (token : Option ℕ) (is : List Incident)
    → find_incident stream token is ≡ none
    → count_open stream token is ≡ 0
unfolding find_incident count_open
none_counted stream token [] = λ h. refl
none_counted stream token (i ∷ is) =
    if_keeps Q (is_group stream token i) (λ _ h. elim (none-some i (sym h)) [ ])
      (λ out h. rw out (none_counted stream token is h))
  where
    Q : Option Incident → Type 0
    Q r =
        r ≡ none
        → (if is_group stream token i
            then suc (count_open stream token is)
            else count_open stream token is)
          ≡ 0

one_more : (n : ℕ) → n ≡ 0 → suc n ≤ 1
one_more n h = omega arith

module _ (m : Match) (db : LeakDb) where
  create-IsGrouped :
      (status : IncidentStatus) → IsGrouped db → IsGrouped (find_or_create_incident m status db).0
  unfolding find_or_create_incident count_open
  create-IsGrouped status h stream token =
      option_keeps (λ (r : LeakDb × ℕ). count_open stream token r.0.incidents ≤ 1)
        (find_incident m.stream_id m.token_id db.incidents)
        (λ free.
          if_keeps (λ n. n ≤ 1) (is_group stream token new)
            (λ here.
              let g = group_of stream token new here in
              one_more _ (
                subst (λ s. count_open s token db.incidents ≡ 0) g.0
                  (subst (λ t. count_open m.stream_id t db.incidents ≡ 0) g.1
                    (none_counted m.stream_id m.token_id db.incidents free))))
            (λ _. h stream token))
        (λ i _. h stream token)
    where
      new : Incident
      new = record {
        id = db.next_id;
        stream = m.stream_id;
        token = m.token_id;
        status = status;
        actions = set_to status ∷ [];
      }

  for-IsGrouped : (c : Confidence) → IsGrouped db → IsGrouped (incident_for m c db).0
  unfolding incident_for
  for-IsGrouped mention h = h
  for-IsGrouped probable h = create-IsGrouped _ h
  for-IsGrouped confirmed h = create-IsGrouped _ h

  create_unconfirmed :
      (status : IncidentStatus)
      → is_confirmed status ≡ false
      → count_confirmed (find_or_create_incident m status db).0.incidents
        ≡ count_confirmed db.incidents
  unfolding find_or_create_incident count_confirmed
  create_unconfirmed status sober =
      option_keeps
        (λ (r : LeakDb × ℕ). count_confirmed r.0.incidents ≡ count_confirmed db.incidents)
        (find_incident m.stream_id m.token_id db.incidents) (λ _. rw sober refl) (λ _ _. refl)

  for_unconfirmed :
      (c : Confidence)
      → count_confirmed (incident_for m c db).0.incidents ≡ count_confirmed db.incidents
  unfolding incident_for is_confirmed
  for_unconfirmed mention = refl
  for_unconfirmed probable = create_unconfirmed _ refl
  for_unconfirmed confirmed = create_unconfirmed _ refl

store-incidents :
    (key : Bytes) (known : Option Finding) (m : Match) (i : Option ℕ) (db : LeakDb)
    → (store_finding key known m i db).incidents ≡ db.incidents
unfolding store_finding
store-incidents key none m i db = refl
store-incidents key (some f) m i db = refl

-- Recording a match keeps at most one open incident for each stream and token, and for each stream
-- without a token, and makes no incident a confirmed one.
pub record_match-IsGrouped :
    (fails : Statement → Bool) (hash : Bytes → Bytes) (m : Match) (source url : Bytes) (db : LeakDb)
    → IsGrouped db
    → IsGrouped (record_match fails hash m source url db).0
      × (count_confirmed (record_match fails hash m source url db).0.incidents
          ≡ count_confirmed db.incidents)
unfolding record_match incident_of
record_match-IsGrouped fails hash m source url db h =
    if_keeps Q (fails looks_up) (λ _. stays)
      (λ _.
        if_keeps Q (is_known m known) (λ _. stays)
          (λ _.
            if_keeps Q (not (eqb (confidence_rank m.confidence) 0) && fails groups) (λ _. stays)
              (λ _.
                if_keeps Q (fails writes) (λ _. stays)
                  (λ _. if_keeps Q (fails commits) (λ _. stays) (λ _. stored)))))
  where
    known : Option Finding
    known = find_finding (dedupe_key hash source url m.matched_value) db.findings

    Kept : List Incident → Type 0
    Kept is =
        ((stream : ℕ) (token : Option ℕ) → count_open stream token is ≤ 1)
        × (count_confirmed is ≡ count_confirmed db.incidents)

    Q : LeakDb × Result LeakError (Bool × Option ℕ) → Type 0
    Q r = Kept r.0.incidents

    stays : Kept db.incidents
    stays = (h, refl)

    stored :
        Kept
          (store_finding
            (dedupe_key hash source url m.matched_value)
            known
            m
            (incident_of m db).1
            (incident_of m db).0).incidents
    stored =
        subst Kept (sym (store-incidents _ known m _ _))
          (for-IsGrouped m db m.confidence h, for_unconfirmed m db m.confidence)
