-- ===== src/Nodeproto/TokenLaws.antt =====
-- The tokens that `ParseToken` of gateway/internal/nodeproto/nodeproto.go accepts.
use psychic_computing_machin.Common.{
  ℕ, ◌≤◌, ◌≡◌, ◌↔◌, refl, sym, ap, subst, ◌∙◌, true, ◌⊎◌, some, [], ◌∷◌, ◌++◌, All, length, drop,
  arith,
}
use psychic_computing_machin.Common.Text.{Bytes, ascii, has_prefix}
use psychic_computing_machin.Common.Decimal.{is_digit, read_digits}
use psychic_computing_machin.Common.Decimal.Laws.{IsDecimal}
use psychic_computing_machin.Nodeproto.{
  is_hex, all_hex, span_digits, is_node_id, secret_after, token_groups, parse_token,
}

abbrev pub IsLowerHex : ℕ → Type 0
IsLowerHex c = ((b'0' ≤ c) × (c ≤ b'9')) ⊎ ((b'a' ≤ c) × (c ≤ b'f'))

-- What the regular expression `^svn_([1-9][0-9]{0,17})_([0-9a-f]{64})$` says of a text and its
-- groups.
pub record IsNodeToken (token : Bytes) (id : ℕ) (secret : Bytes) : Type 0 where
  pub first : ℕ
  pub more : Bytes
  pub spelled : token ≡ ascii "svn_" ++ ((first ∷ more) ++ (b'_' ∷ secret))
  pub leading : (b'1' ≤ first) × (first ≤ b'9')
  pub digits : IsDecimal more
  pub short : length more ≤ 17
  pub value : read_digits 0 (first ∷ more) ≡ some id
  pub size : length secret ≡ 64
  pub hex : All IsLowerHex secret

span_digits_sound :
    (s : Bytes) → (s ≡ (span_digits s).0 ++ (span_digits s).1) × IsDecimal (span_digits s).0
unfolding span_digits is_digit
span_digits_sound [] = (refl, tt)
span_digits_sound (c ∷ s) = let (e, d) = span_digits_sound s in ground arith

span_digits_complete :
    (ds s : Bytes) → IsDecimal ds → span_digits (ds ++ (b'_' ∷ s)) ≡ (ds, b'_' ∷ s)
unfolding span_digits is_digit
span_digits_complete [] s h = refl
span_digits_complete (c ∷ ds) s (d, h) = ground (arith, span_digits_complete ds s h)

all_hex_iff : (s : Bytes) → (all_hex s ≡ true) ↔ All IsLowerHex s
unfolding all_hex is_hex is_digit
all_hex_iff [] = ground arith
all_hex_iff (c ∷ s) = ground (arith, all_hex_iff s)

drop_svn : (t : Bytes) → has_prefix t (ascii "svn_") ≡ true → t ≡ ascii "svn_" ++ drop 4 t
drop_svn [] h = cc
drop_svn (a ∷ []) h = ground arith
drop_svn (a ∷ b ∷ []) h = ground arith
drop_svn (a ∷ b ∷ c ∷ []) h = ground arith
drop_svn (a ∷ b ∷ c ∷ d ∷ t) h = ground arith

token_groups_sound :
    (ds rest : Bytes) {id : ℕ} {secret : Bytes}
    → IsDecimal ds
    → token_groups (ds, rest) ≡ some (id, secret)
    → IsNodeToken (ascii "svn_" ++ (ds ++ rest)) id secret
unfolding token_groups is_node_id secret_after
token_groups_sound [] rest d h = cc
token_groups_sound (c ∷ ds) [] d h = ground arith
token_groups_sound (c ∷ ds) (u ∷ rest) {id} {secret} d h =
    let same : rest ≡ secret = ground arith in
    record {
      first = c;
      more = ds;
      spelled = ground arith;
      leading = ground arith;
      digits = d.1;
      short = ground arith;
      value = ground arith;
      size = ground arith;
      hex = subst (All IsLowerHex) same ((all_hex_iff rest).0 (ground arith));
    }

-- A token is accepted with a number and a secret exactly if it is `svn_`, one to eighteen digits
-- that do not begin with 0 and spell the number, `_`, and the secret of 64 lower-case hex digits.
pub parse_token_iff :
    (token : Bytes) (id : ℕ) (secret : Bytes)
    → (parse_token token ≡ some (id, secret)) ↔ IsNodeToken token id secret
unfolding parse_token
parse_token_iff token id secret = (sound, λ h. complete h)
  where
    sound : parse_token token ≡ some (id, secret) → IsNodeToken token id secret
    sound h =
        let prefixed : has_prefix token (ascii "svn_") ≡ true = ground arith in
        let (joined, decimal) = span_digits_sound (drop 4 token) in
        let whole : ascii "svn_"
              ++ ((span_digits (drop 4 token)).0 ++ (span_digits (drop 4 token)).1)
            ≡ token =
          ap (λ (s : Bytes). ascii "svn_" ++ s) (sym joined) ∙ sym (drop_svn token prefixed) in
        subst (λ (s : Bytes). IsNodeToken s id secret) whole
          (token_groups_sound _ _ decimal (ground arith))

    complete : IsNodeToken token id secret → parse_token token ≡ some (id, secret)
    complete h = rw h.spelled (
        unfold is_node_id secret_after in
        ground (
          arith,
          h,
          span_digits_complete (h.first ∷ h.more) secret (omega (arith, h.leading), h.digits),
          all_hex_iff secret,
        ))
