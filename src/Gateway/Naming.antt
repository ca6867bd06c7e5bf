-- ===== src/Gateway/Naming.antt =====
-- How `resolvePrefix` of gateway/internal/gatewayhttp/handler.go reads a path.
use psychic_computing_machin.Common.{
  ℕ, zero, Bool, false, ◌≢◌, suc, ◌-◌, ◌≡◌, refl, sym, ap, ◌∙◌, true, some, Result, ok, err, arith,
  ◌==◌, ◌||◌, nat_eq, list_eq, [], ◌∷◌, ◌++◌, take, drop, eqb, length, if_keeps, option_keeps,
}
use psychic_computing_machin.Common.Text.{Bytes, ascii, last_index_byte}
use psychic_computing_machin.Gateway.{
  AccessPoint, StoreError, not_found, failed, Services, resolve_prefix, resolve_private,
  private_point, public_point,
}

last_index_byte-cut :
    (s : Bytes) (b i : ℕ) → last_index_byte s b ≡ some i → s ≡ take i s ++ (b ∷ drop (suc i) s)
unfolding last_index_byte
last_index_byte-cut [] b i h = ground arith
last_index_byte-cut (c ∷ s) b zero h = ap (λ x. x ∷ s) (ground arith)
last_index_byte-cut (c ∷ s) b (suc i) h = ap (λ l. c ∷ l) (last_index_byte-cut s b i (ground arith))

-- What follows the last such byte is empty only if the byte is the last one, and what stands before
-- it only if it is the first.
last_index_byte-end :
    (s : Bytes) (b i : ℕ) → last_index_byte s b ≡ some i → drop (suc i) s ≡ [] → i ≡ length s - 1
unfolding last_index_byte
last_index_byte-end [] b i h e = ground arith
last_index_byte-end (c ∷ []) b zero h e = omega arith
last_index_byte-end (c ∷ d ∷ s) b zero h e = ground arith
last_index_byte-end (c ∷ []) b (suc i) h e = ground arith
last_index_byte-end (c ∷ d ∷ s) b (suc i) h e =
    omega (arith, last_index_byte-end (d ∷ s) b i (ground arith) e)

last_index_byte-start : (s : Bytes) (b i : ℕ) → last_index_byte s b ≡ some i → take i s ≡ [] → i ≡ 0
unfolding last_index_byte
last_index_byte-start s b zero h e = refl
last_index_byte-start [] b (suc i) h e = ground arith
last_index_byte-start (c ∷ s) b (suc i) h e = ground arith

neither : (a b : Bool) → (a || b) ≡ false → (a ≡ false) × (b ≡ false)
neither a b h = (ground arith, ground arith)

unequal : (a b : ℕ) → eqb a b ≡ false → a ≢ b
unequal a b h = ground arith

-- How a prefix names an access point: a public one by its whole, a private one by what stands
-- a slash, with the token after it; neither is empty.
pub data IsNamed (sv : Services) (prefix : Bytes) (point : AccessPoint) (raw : Bytes) : Type 0 where
  by_path :
      sv.access_point prefix ≡ ok point
      → (point.visibility == ascii "public") ≡ true
      → raw ≡ []
      → IsNamed sv prefix point raw
  by_path_and_token :
      (base : Bytes)
      → base ≢ []
      → raw ≢ []
      → prefix ≡ base ++ (b'/' ∷ raw)
      → sv.access_point base ≡ ok point
      → (point.visibility == ascii "private") ≡ true
      → IsNamed sv prefix point raw

named_pair :
    (p q : AccessPoint) (s t : Bytes)
    → ◌≡◌ {A = Result StoreError (AccessPoint × Bytes)} (ok (p, s)) (ok (q, t))
    → (p ≡ q) × (s ≡ t)
named_pair p q s t h = (ground arith, ground arith)

private_point-IsNamed :
    (sv : Services) (base token prefix : Bytes)
    → base ≢ []
    → token ≢ []
    → prefix ≡ base ++ (b'/' ∷ token)
    → (point : AccessPoint) (raw : Bytes) (r : Result StoreError AccessPoint)
    → sv.access_point base ≡ r
    → private_point token r ≡ ok (point, raw)
    → IsNamed sv prefix point raw
unfolding private_point
private_point-IsNamed sv base token prefix nb nt cut point raw (err e) found = λ h. ground arith
private_point-IsNamed sv base token prefix nb nt cut point raw (ok p) found =
    if_keeps Q (p.visibility == ascii "private")
      (λ private h.
        let (same, rest) = named_pair p point token raw h in
        by_path_and_token base nb (λ e. nt (rest ∙ e)) (cut ∙ ap (λ t. base ++ (b'/' ∷ t)) rest)
          (found ∙ ap (λ x. ok x) same)
          (ap (λ x. x.visibility == ascii "private") (sym same) ∙ private))
      (λ _ h. ground arith)
  where
    Q : Result StoreError (AccessPoint × Bytes) → Type 0
    Q r = r ≡ ok (point, raw) → IsNamed sv prefix point raw

resolve_private-IsNamed :
    (sv : Services) (prefix : Bytes) (point : AccessPoint) (raw : Bytes)
    → resolve_private sv prefix ≡ ok (point, raw)
    → IsNamed sv prefix point raw
unfolding resolve_private
resolve_private-IsNamed sv prefix point raw =
    option_keeps Q (last_index_byte prefix b'/') (λ _ e. ground arith)
      (λ i found.
        if_keeps Q (eqb i 0 || eqb i (length prefix - 1)) (λ _ e. ground arith)
          (λ inside.
            let (first, last) = neither (eqb i 0) (eqb i (length prefix - 1)) inside in
            private_point-IsNamed sv (take i prefix) (drop (suc i) prefix) prefix
              (λ e. unequal i 0 first (last_index_byte-start prefix b'/' i found e))
              (λ e. unequal i (length prefix - 1) last (last_index_byte-end prefix b'/' i found e))
              (last_index_byte-cut prefix b'/' i found) point raw (sv.access_point (take i prefix))
              refl))
  where
    Q : Result StoreError (AccessPoint × Bytes) → Type 0
    Q r = r ≡ ok (point, raw) → IsNamed sv prefix point raw

public_point-IsNamed :
    (sv : Services) (prefix : Bytes) (point : AccessPoint) (raw : Bytes)
    (r : Result StoreError AccessPoint)
    → sv.access_point prefix ≡ r
    → public_point sv prefix r ≡ ok (point, raw)
    → IsNamed sv prefix point raw
unfolding public_point
public_point-IsNamed sv prefix point raw (err not_found) found =
    resolve_private-IsNamed sv prefix point raw
public_point-IsNamed sv prefix point raw (err failed) found = λ h. ground arith
public_point-IsNamed sv prefix point raw (ok p) found =
    if_keeps Q (p.visibility == ascii "public")
      (λ public h.
        let (same, rest) = named_pair p point [] raw h in
        by_path (found ∙ ap (λ x. ok x) same)
          (ap (λ x. x.visibility == ascii "public") (sym same) ∙ public) (sym rest))
      (λ _ h. resolve_private-IsNamed sv prefix point raw h)
  where
    Q : Result StoreError (AccessPoint × Bytes) → Type 0
    Q r = r ≡ ok (point, raw) → IsNamed sv prefix point raw

-- What `resolvePrefix` finds is named by the prefix: a public access point by all of it, with no
-- token, and a private one by what stands before a slash that is followed by a token, neither of
-- which is empty.
pub resolve_prefix-IsNamed :
    (sv : Services) (prefix : Bytes) (point : AccessPoint) (raw : Bytes)
    → resolve_prefix sv prefix ≡ ok (point, raw)
    → IsNamed sv prefix point raw
unfolding resolve_prefix
resolve_prefix-IsNamed sv prefix point raw h =
    public_point-IsNamed sv prefix point raw (sv.access_point prefix) refl h
