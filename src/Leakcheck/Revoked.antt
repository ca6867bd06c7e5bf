-- ===== src/Leakcheck/Revoked.antt =====
-- What `AutoRevoke` of gateway/internal/leakcheck/actions.go changes.
use psychic_computing_machin.Common.{
  ℕ, ◌≡◌, ◌≢◌, refl, sym, ap, subst, ◌∙◌, Bool, true, false, ◌||◌, not, Option, none, some, eqb,
  nat_eq, ◌==◌, eqb_iff, if◌then◌else◌, if_keeps, option_keeps, ◌⊎◌, inl, inr, Result, ok, err,
  arith,
}
use psychic_computing_machin.Common.Map.{Map, lookup, insert, lookup-insert}
use psychic_computing_machin.Leakcheck.{
  Match, LeakDb, LeakError, db_failed, Incident, PointRow, Statement, looks_up, writes, notes,
  commits, is_open, is_confirmed, confidence_rank, incident_by_id, revoke_row, revoke_token,
  revoke_point, revoke_target, Revocation, untouched, auto_revoke,
}

other_key :
    {A : Type 0} (k j : ℕ) (v : A) (m : Map ℕ A) → k ≢ j → lookup j (insert k v m) ≡ lookup j m
other_key k j v m h = lookup-insert k j v m ∙ skip (k == j) (λ e. h ((eqb_iff k j).0 e))
  where
    skip : (b : Bool) → (b ≡ true → ⊥) → (if b then some v else lookup j m) ≡ lookup j m
    skip true h = elim (h refl) [ ]
    skip false h = refl

own_key : {A : Type 0} (k : ℕ) (v : A) (m : Map ℕ A) → lookup k (insert k v m) ≡ some v
own_key k v m = lookup-insert k k v m ∙ rw ((eqb_iff k k).1 refl) refl

-- Only the credential that the match names may differ.
pub record IsOnly (m : Match) (db db' : LeakDb) : Type 0 where
  pub tokens : (id : ℕ) → m.token_id ≢ some id → lookup id db'.tokens ≡ lookup id db.tokens
  pub points :
      (id : ℕ)
      → (m.token_id ≢ none) ⊎ (m.access_point_id ≢ id)
      → lookup id db'.points ≡ lookup id db.points
  pub findings : db'.findings ≡ db.findings
  pub replies : db'.replies ≡ db.replies

unchanged : {m : Match} {db : LeakDb} → IsOnly m db db
unchanged = record { tokens = λ id h. refl; points = λ id h. refl; findings = refl; replies = refl }

revoke_row_others :
    (now id j : ℕ) (row : Option (Option ℕ)) (tokens : Map ℕ (Option ℕ))
    → id ≢ j
    → lookup j (revoke_row now id row tokens).0 ≡ lookup j tokens
unfolding revoke_row
revoke_row_others now id j none tokens other = refl
revoke_row_others now id j (some (some t)) tokens other = refl
revoke_row_others now id j (some none) tokens other = other_key id j (some now) tokens other

revoke_point_others :
    (now id j : ℕ) (points : Map ℕ PointRow)
    → id ≢ j
    → lookup j (revoke_point now id points).0 ≡ lookup j points
unfolding revoke_point
revoke_point_others now id j points other =
    option_keeps Q (lookup id points) (λ _. refl)
      (λ p _. if_keeps Q p.is_active (λ _. other_key id j _ points other) (λ _. refl))
  where
    Q : Map ℕ PointRow × Bool → Type 0
    Q r = lookup j r.0 ≡ lookup j points

revoke_target-IsOnly : (now : ℕ) (m : Match) (db : LeakDb) → IsOnly m db (revoke_target now m db).0
unfolding revoke_target revoke_token
revoke_target-IsOnly now m db =
    option_keeps (λ (r : LeakDb × Bool). IsOnly m db r.0) m.token_id
      (λ none_named. record {
        tokens = λ id h. refl;
        points = λ id h.
            revoke_point_others now m.access_point_id id db.points (point_named none_named h);
        findings = refl;
        replies = refl;
      })
      (λ j named. record {
        tokens = λ id h.
            revoke_row_others now j id (lookup j db.tokens) db.tokens (λ e. h (named ∙ ap some e));
        points = λ id h. refl;
        findings = refl;
        replies = refl;
      })
  where
    point_named :
        {id : ℕ}
        → m.token_id ≡ none
        → (m.token_id ≢ none) ⊎ (m.access_point_id ≢ id)
        → m.access_point_id ≢ id
    point_named e (inl h) = elim (h e) [ ]
    point_named e (inr h) = h

-- The incident exists and is open.
pub record IsOpen (incident : ℕ) (db : LeakDb) : Type 0 where
  pub row : Incident
  pub found : incident_by_id incident db.incidents ≡ some row
  pub live : is_open row.status ≡ true

-- What holds of the result: nothing has changed, or the leak is confirmed, the incident open and only
-- the credential revoked.
record IsRevocation (now : ℕ) (m : Match) (incident : ℕ) (db : LeakDb)
    (r : LeakDb × Result LeakError Revocation) : Type 0 where
  only : IsOnly m db r.0
  due : (r.0 ≡ db) ⊎ ((confidence_rank m.confidence ≡ 2) × IsOpen incident db)
  done :
      (v : Revocation)
      → r.1 ≡ ok v
      → v.inactive ≡ true
      → (r.0.tokens ≡ (revoke_target now m db).0.tokens)
        × (r.0.points ≡ (revoke_target now m db).0.points)

nothing_done :
    {now : ℕ} {m : Match} {incident : ℕ} {db : LeakDb}
    → IsRevocation now m incident db (db, err db_failed)
nothing_done = record { only = unchanged; due = inl refl; done = λ v h. ground arith }

not_due :
    {now : ℕ} {m : Match} {incident : ℕ} {db : LeakDb}
    → IsRevocation now m incident db (db, ok untouched)
not_due = record { only = unchanged; due = inl refl; done = λ v h t. ground arith }

auto_revoke-IsRevocation :
    (fails : Statement → Bool) (now : ℕ) (m : Match) (incident : ℕ) (db : LeakDb)
    → IsRevocation now m incident db (auto_revoke fails now m incident db)
unfolding auto_revoke
auto_revoke-IsRevocation fails now m incident db =
    if_keeps Q (not (eqb (confidence_rank m.confidence) 2)) (λ _. not_due)
      (λ sure.
        if_keeps Q (fails looks_up) (λ _. nothing_done)
          (λ _.
            option_keeps Q (incident_by_id incident db.incidents) (λ _. nothing_done)
              (λ i here.
                if_keeps Q (not (is_open i.status)) (λ _. not_due)
                  (λ live.
                    if_keeps Q (fails writes) (λ _. nothing_done)
                      (λ _.
                        if_keeps Q ((revoke_target now m db).1 || not (is_confirmed i.status))
                          (λ _.
                            if_keeps Q (fails notes || fails commits) (λ _. nothing_done)
                              (λ _. record {
                                only = record {
                                  tokens = only.tokens;
                                  points = only.points;
                                  findings = only.findings;
                                  replies = only.replies;
                                };
                                due = inr (at_two sure, open_row i here live);
                                done = λ v h t. (refl, refl);
                              }))
                          (λ _.
                            if_keeps Q (fails commits) (λ _. nothing_done)
                              (λ _. record {
                                only = only;
                                due = inr (at_two sure, open_row i here live);
                                done = λ v h t. (refl, refl);
                              })))))))
  where
    Q : LeakDb × Result LeakError Revocation → Type 0
    Q r = IsRevocation now m incident db r

    only : IsOnly m db (revoke_target now m db).0
    only = revoke_target-IsOnly now m db

    at_two : not (eqb (confidence_rank m.confidence) 2) ≡ false → confidence_rank m.confidence ≡ 2
    at_two h = ground (arith, h)

    open_row :
        (i : Incident)
        → incident_by_id incident db.incidents ≡ some i
        → not (is_open i.status) ≡ false
        → IsOpen incident db
    open_row i here live = record { row = i; found = here; live = not_not (is_open i.status) live }
      where
        not_not : (b : Bool) → not b ≡ false → b ≡ true
        not_not b h = ground arith

-- Whatever a call of `AutoRevoke` comes to, at most the credential that the match names is changed among tokens and
-- access points, and the findings and the replies stay; and the database stays as it is unless the
-- leak is confirmed and the incident is still open.
pub auto_revoke-IsOnly :
    (fails : Statement → Bool) (now : ℕ) (m : Match) (incident : ℕ) (db : LeakDb)
    → let db' = (auto_revoke fails now m incident db).0 in
      IsOnly m db db' × ((db' ≡ db) ⊎ ((confidence_rank m.confidence ≡ 2) × IsOpen incident db))
auto_revoke-IsOnly fails now m incident db =
    let r = auto_revoke-IsRevocation fails now m incident db in (r.only, r.due)

some_row : (t : ℕ) → ◌≢◌ {A = Option (Option ℕ)} (some (some t)) (some none)
some_row t h = ground arith

no_row : ◌≢◌ {A = Option (Option ℕ)} none (some none)
no_row h = ground arith

revoke_row_revoked :
    (now id : ℕ) (row : Option (Option ℕ)) (tokens : Map ℕ (Option ℕ))
    → lookup id tokens ≡ row
    → lookup id (revoke_row now id row tokens).0 ≢ some none
unfolding revoke_row
revoke_row_revoked now id none tokens e h = no_row (sym e ∙ h)
revoke_row_revoked now id (some (some t)) tokens e h = some_row t (sym e ∙ h)
revoke_row_revoked now id (some none) tokens e h =
    some_row now (sym (own_key id (some now) tokens) ∙ h)

revoke_target_revoked :
    (now id : ℕ) (m : Match) (db : LeakDb)
    → m.token_id ≡ some id
    → lookup id (revoke_target now m db).0.tokens ≢ some none
unfolding revoke_target revoke_token
revoke_target_revoked now id m db named =
    rw named (revoke_row_revoked now id (lookup id db.tokens) db.tokens refl)

-- Where `AutoRevoke` answers that the leaked token is inactive, no row has the token without a time of its
-- revocation afterwards.
pub auto_revoke_revoked :
    (fails : Statement → Bool) (now : ℕ) (m : Match) (incident : ℕ) (db : LeakDb) (id : ℕ)
    (v : Revocation)
    → m.token_id ≡ some id
    → (auto_revoke fails now m incident db).1 ≡ ok v
    → v.inactive ≡ true
    → lookup id (auto_revoke fails now m incident db).0.tokens ≢ some none
auto_revoke_revoked fails now m incident db id v named h inactive =
    let done = (auto_revoke-IsRevocation fails now m incident db).done v h inactive in
    subst (λ ts. lookup id ts ≢ some none) (sym done.0) (revoke_target_revoked now id m db named)
