-- ===== src/Examples/GatewayRuns.antt =====
-- A gateway with one private access point, `tv/one`, and one token, `k`, asked for the stream.
use psychic_computing_machin.Common.{
  ◌+◌, ◌*◌, ◌∷◌, ◌≡◌, refl, true, false, none, some, [], ◌==◌, nat_eq, list_eq, if◌then◌else◌, ok,
  err,
}
use psychic_computing_machin.Common.Text.{Bytes, ascii, trim_prefix, last_index_byte}
use psychic_computing_machin.Common.Map.{lookup, insert, erase}
use psychic_computing_machin.Remux.{second}
use psychic_computing_machin.Gateway.{
  Url, Stream, AccessPoint, not_found, TokenRow, Services, Handler, Request, is_source_private,
  resolve_prefix, cut_path, serve_http,
}
use psychic_computing_machin.Gateway.Guard.{shown, IsServed, IsAdmitted, serve_http_guarded}
use psychic_computing_machin.Gateway.TrustCache.{
  Ask, answer, asks, backwards, IsVouched, is_source_private-IsVouched,
}
use psychic_computing_machin.Gateway.Naming.{IsNamed, resolve_prefix-IsNamed}

abbrev one : Stream
one = record {
  id = 7;
  source_type = ascii "hls";
  source_url = ascii "http://s/";
  source_username = none;
  source_password_enc = none;
  status = ascii "active";
  allow_remux = false;
  trust_private_source = true;
  node = none;
}

abbrev point : AccessPoint
point = record { id = 5; visibility = ascii "private"; status = ascii "active"; stream = one }

abbrev source : Url
source = record {
  scheme = ascii "http";
  host = ascii "s:80";
  hostname = ascii "s";
  path = ascii "/";
}

abbrev token_row : TokenRow
token_row = record { id = 3; revoked_at = none; expires_at = none }

abbrev services : Services
services = record {
  access_point = λ path. if path == ascii "tv/one" then ok point else err not_found;
  token_row = λ id hash. ok (if hash == ascii "k" then some token_row else none);
  token_hash = λ raw. raw;
  parse_time = λ _. none;
  resolves_private = λ host. some (host == ascii "s");
  parse_url = λ raw. some source;
  path_escape = λ s. s;
  query_escape = λ s. s;
  decrypt_password = none;
  decode_blob = λ blob id. none;
}

abbrev idle : Handler
idle = record { last_touch = []; trust_cache = []; touched = [] }

abbrev entry_request : Request
entry_request = record { method = ascii "GET"; path = ascii "/tv/one/k.m3u8" }

entry_shown : shown (serve_http services 9 entry_request idle).1 ≡ some point
unfolding serve_http trim_prefix last_index_byte
entry_shown = refl

serve_http_guarded_example :
    (raw : Bytes) × ((resolve_prefix services
          (cut_path (trim_prefix entry_request.path (ascii "/"))).0
        ≡ ok (point, raw))
      × (IsAdmitted services 9 point raw × IsServed point))
serve_http_guarded_example = serve_http_guarded services 9 entry_request idle point entry_shown

named : resolve_prefix services (ascii "tv/one/k") ≡ ok (point, ascii "k")
unfolding resolve_prefix last_index_byte
named = refl

resolve_prefix-IsNamed_example : IsNamed services (ascii "tv/one/k") point (ascii "k")
resolve_prefix-IsNamed_example =
    resolve_prefix-IsNamed services (ascii "tv/one/k") point (ascii "k") named

abbrev first_ask : Ask
first_ask = record { services = services; now = 9; stream = one; source = source }

-- A minute later the resolver fails, and the cache answers.
abbrev second_ask : Ask
second_ask = record first_ask {
  services = record services { resolves_private = λ host. none };
  now = 9 + 60 * second;
}

trusted : (answer second_ask (asks (first_ask ∷ []) idle)).1 ≡ true
unfolding is_source_private lookup insert erase asks
trusted = refl

is_source_private-IsVouched_example :
    (one.trust_private_source ≡ true)
    × IsVouched (second_ask ∷ backwards (first_ask ∷ []) []) second_ask
is_source_private-IsVouched_example =
    is_source_private-IsVouched (first_ask ∷ []) second_ask idle refl trusted
