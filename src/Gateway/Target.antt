-- ===== src/Gateway/Target.antt =====
-- Where the gateway may connect to: gateway/internal/gatewayhttp/ssrf.go, sourceurl.go and
-- `isSourcePrivate` of handler.go.
use psychic_computing_machin.Common.{
  ℕ, zero, suc, ◌-◌, ◌*◌, Bool, false, ◌&&◌, ◌||◌, not, Option, none, some, [], ◌∷◌, ◌++◌, take,
  drop, ltb, if◌then◌else◌, ◌==◌, nat_eq, list_eq,
}
use psychic_computing_machin.Common.Text.{Bytes, ascii, has_prefix, index, contains_text}
use psychic_computing_machin.Common.Map.{lookup, insert}
use psychic_computing_machin.Remux.{second}
use psychic_computing_machin.Gateway.Types.{Url, Stream, Services, Handler}

pub data FetchError : Type 0 where
  disallowed_scheme unresolved private_target : FetchError

-- Whether the target may be fetched; none is the nil error.
unfoldable pub check_fetch_target : (Bytes → Option Bool) → Url → Bool → Option FetchError
check_fetch_target resolve target source_trusts_private =
    if not (target.scheme == ascii "http") && not (target.scheme == ascii "https")
    then some disallowed_scheme
    else if source_trusts_private
    then none
    else elim (resolve target.hostname) [
      | none ↦ some unresolved
      | some private ↦ if private then some private_target else none
    ]

abbrev pub source_trust_cache_ttl : ℕ
source_trust_cache_ttl = 5 * 60 * second

abbrev pub or_public : Option Bool → Bool
or_public none = false
or_public (some private) = private

-- The lookup and the entry that keeps it.
unfoldable pub refresh_trust : Services → ℕ → Stream → Url → Handler → Handler × Bool
refresh_trust sv now s source_entry h =
    let private = or_public (sv.resolves_private source_entry.hostname) in
    (
      record h {
        trust_cache = insert s.id (record { private = private; checked_at = now }) h.trust_cache;
      },
      private,
    )

unfoldable pub is_source_private : Services → ℕ → Stream → Url → Handler → Handler × Bool
unfolding refresh_trust
is_source_private sv now s source_entry h =
    if not s.trust_private_source then (h, false) else elim (lookup s.id h.trust_cache) [
      | none ↦ refresh_trust sv now s source_entry h
      | some e ↦
          if ltb (now - e.checked_at) source_trust_cache_ttl
          then (h, e.private)
          else refresh_trust sv now s source_entry h
    ]

abbrev pub username_placeholder : Bytes
username_placeholder = ascii "{username}"

abbrev pub password_placeholder : Bytes
password_placeholder = ascii "{password}"

unfoldable pub uses_credential_placeholders : Bytes → Bool
unfolding contains_text
uses_credential_placeholders raw =
    contains_text raw username_placeholder || contains_text raw password_placeholder

-- strings.NewReplacer on the two placeholders, of ten bytes each: the first number counts the
-- bytes of a placeholder still to pass.
unfoldable pub fill : Bytes → Bytes → ℕ → Bytes → Bytes
fill username password skip [] = []
fill username password (suc skip) (c ∷ s) = fill username password skip s
fill username password zero (c ∷ s) =
    let past = fill username password 9 s in
    let next = fill username password zero s in
    if has_prefix (c ∷ s) username_placeholder
    then username ++ past
    else if has_prefix (c ∷ s) password_placeholder
    then password ++ past
    else c ∷ next

-- Path and query are escaped differently.
unfoldable pub fill_credentials : Services → Bytes → Bytes → Bytes → Bytes
unfolding fill
fill_credentials sv username password raw = elim (index raw (ascii "?")) [
  | none ↦ fill (sv.path_escape username) (sv.path_escape password) zero raw
  | some i ↦
      fill (sv.path_escape username) (sv.path_escape password) zero (take i raw)
      ++ (b'?' ∷ fill (sv.query_escape username) (sv.query_escape password) zero (drop (suc i) raw))
]

abbrev pub both {ℓ} : {A B : Type ℓ} → Option A → Option B → Option (A × B)
both (some a) (some b) = some (a, b)
both (some a) none = none
both none b = none

-- none stands for each of the errors, which the caller answers alike.
unfoldable pub source_entry_url : Services → Stream → Option Url
unfolding fill_credentials uses_credential_placeholders
source_entry_url sv s =
    if not (uses_credential_placeholders s.source_url)
    then sv.parse_url s.source_url
    else elim (both s.source_username s.source_password_enc) [
      | none ↦ none
      | some (username, encrypted) ↦ elim (sv.decrypt_password) [
        | none ↦ none
        | some decrypt ↦ elim (decrypt encrypted) [
          | none ↦ none
          | some password ↦ sv.parse_url (fill_credentials sv username password s.source_url)
        ]
      ]
    ]
