-- ===== src/Leakcheck/Reply.antt =====
-- Where a public notice may be posted: `ParseIssueURL` and `ReplyAllowlist` of
-- gateway/internal/leakcheck/actions.go.
use psychic_computing_machin.Common.{
  ℕ, zero, suc, ◌^◌, Bool, true, ◌&&◌, ◌||◌, not, Option, none, some, List, [], ◌∷◌, ◌++◌, length,
  map, leb, eqb, nat_eq, list_eq, ◌==◌, if◌then◌else◌, contains,
}
use psychic_computing_machin.Common.Text.{Bytes, ascii, has_prefix, trim_prefix, trim_space, split}
use psychic_computing_machin.Common.Decimal.{read_nat, in_range}
use psychic_computing_machin.Gateway.{to_lower}

abbrev pub is_alphanumeric : ℕ → Bool
is_alphanumeric c =
    (leb b'0' c && leb c b'9') || ((leb b'a' c && leb c b'z') || (leb b'A' c && leb c b'Z'))

abbrev pub is_owner_char : ℕ → Bool
is_owner_char c = is_alphanumeric c || eqb c b'-'

abbrev pub is_repo_char : ℕ → Bool
is_repo_char c = is_owner_char c || (eqb c b'.' || eqb c b'_')

abbrev pub all_of : (ℕ → Bool) → Bytes → Bool
all_of p [] = true
all_of p (c ∷ s) = p c && all_of p s

pub record Issue : Type 0 where
  pub owner : Bytes
  pub repo : Bytes
  pub number : ℕ

abbrev pub positive_number : Option ℕ → Option ℕ
positive_number none = none
positive_number (some zero) = none
positive_number (some (suc n)) = some (suc n)

unfoldable pub issue_parts : List Bytes → Option Issue
unfolding read_nat in_range
issue_parts (owner ∷ repo ∷ kind ∷ digits ∷ []) =
    if (not (eqb (length owner) 0) && all_of is_owner_char owner)
      && ((not (eqb (length repo) 0) && all_of is_repo_char repo)
          && ((kind == ascii "issues") || (kind == ascii "pull")))
    then elim (positive_number (in_range (2 ^ 63) (read_nat digits))) [
      | none ↦ none
      | some n ↦ some (record { owner = owner; repo = repo; number = n })
    ]
    else none
issue_parts _ = none

unfoldable pub parse_issue_url : Bytes → Option Issue
unfolding issue_parts
parse_issue_url url =
    if has_prefix url (ascii "https://github.com/")
    then issue_parts (split b'/' (trim_prefix url (ascii "https://github.com/")))
    else none

abbrev pub is_separator : ℕ → Bool
is_separator c = eqb c b',' || (eqb c 10 || (eqb c 13 || (eqb c b' ' || eqb c 9)))

-- A field that is read, if it holds anything, before the rest.
abbrev pub add_field : Bytes → List Bytes → List Bytes
add_field [] fs = fs
add_field (c ∷ s) fs = (c ∷ s) ∷ fs

-- strings.FieldsFunc, with what was read of the field so far.
unfoldable pub fields : Bytes → Bytes → List Bytes
fields field [] = add_field field []
fields field (c ∷ s) =
    let ends = fields [] s in
    let goes_on = fields (field ++ (c ∷ [])) s in
    if is_separator c then add_field field ends else goes_on

-- The value of the setting, none where there is none.
unfoldable pub reply_allowlist : Option Bytes → List Bytes
unfolding fields
reply_allowlist none = []
reply_allowlist (some v) = map (λ f. to_lower (trim_space f)) (fields [] v)

unfoldable pub is_allowlisted : Option Bytes → Issue → Bool
unfolding reply_allowlist
is_allowlisted setting i =
    contains (to_lower (i.owner ++ (b'/' ∷ i.repo))) (reply_allowlist setting)
