-- ===== src/Gateway/Types.antt =====
-- Streams, access points and tokens of gateway/internal/store/store.go, and the state that
-- `Handler` of gateway/internal/gatewayhttp/handler.go keeps. Times are nanoseconds.
use psychic_computing_machin.Common.{ℕ, Bool, Option, List, Result}
use psychic_computing_machin.Common.Text.{Bytes}
use psychic_computing_machin.Common.Map.{Map}

-- A parsed URL, as far as the handler reads it.
pub record Url : Type 0 where
  pub scheme : Bytes
  pub host : Bytes
  pub hostname : Bytes  -- without the port
  pub path : Bytes

pub record NodeRef : Type 0 where
  pub id : ℕ
  pub public_url : Bytes

pub record Stream : Type 0 where
  pub id : ℕ
  pub source_type : Bytes
  pub source_url : Bytes
  pub source_username : Option Bytes
  pub source_password_enc : Option Bytes
  pub status : Bytes
  pub allow_remux : Bool
  pub trust_private_source : Bool
  pub node : Option NodeRef

pub record AccessPoint : Type 0 where
  pub id : ℕ
  pub visibility : Bytes
  pub status : Bytes
  pub stream : Stream

pub data StoreError : Type 0 where
  not_found failed : StoreError

pub data TokenStatus : Type 0 where
  token_invalid token_valid token_revoked token_expired : TokenStatus

pub record TokenInfo : Type 0 where
  pub id : ℕ
  pub status : TokenStatus
  pub revoked_at : Option Bytes
  pub expires_at : Option Bytes

-- A row of `access_tokens`.
pub record TokenRow : Type 0 where
  pub id : ℕ
  pub revoked_at : Option Bytes
  pub expires_at : Option Bytes

-- What the handler calls: the two queries, the hash of a token, RFC 3339 times, the resolver, URL
-- parsing and escaping, and the two decryptions.
pub record Services : Type 0 where
  pub access_point : Bytes → Result StoreError AccessPoint
  pub token_row : ℕ → Bytes → Result StoreError (Option TokenRow)
  pub token_hash : Bytes → Bytes
  pub parse_time : Bytes → Option ℕ
  pub resolves_private : Bytes → Option Bool
  pub parse_url : Bytes → Option Url
  pub path_escape : Bytes → Bytes
  pub query_escape : Bytes → Bytes
  pub decrypt_password : Option (Bytes → Option Bytes)  -- none: no key is loaded
  pub decode_blob : Bytes → ℕ → Option Bytes

pub record TrustEntry : Type 0 where
  pub private : Bool
  pub checked_at : ℕ

pub record Handler : Type 0 where
  pub last_touch : Map ℕ ℕ
  pub trust_cache : Map ℕ TrustEntry
  pub touched : List ℕ  -- the tokens that `TouchToken` was called for, the last one first

pub record Request : Type 0 where
  pub method : Bytes
  pub path : Bytes

-- What `ServeHTTP` does with a request. An `entry` goes to `serveFromNode` and then `serveEntry`;
-- the last field of a `replacement` says whether the entry was asked for.
pub data Response : Type 0 where
  node_api not_allowed notice slate_page missing internal_error : Response
  temporary_failure forbidden : Response
  replacement : AccessPoint → Option TokenInfo → Bool → Response
  entry : AccessPoint → Url → Bytes → Response
  remux_resource : AccessPoint → Url → Response
  node_resource : AccessPoint → Url → Response
  resource : AccessPoint → Url → Url → Response
