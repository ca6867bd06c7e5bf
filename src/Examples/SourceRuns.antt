-- ===== src/Examples/SourceRuns.antt =====
-- A source's answers, and a relay node that asks for its configuration.
use psychic_computing_machin.Common.{
  ℕ, ◌≤◌, ◌≡◌, refl, Bool, true, false, none, some, [], ◌++◌, length, nat_eq, list_eq, Result, ok,
}
use psychic_computing_machin.Common.Text.{Bytes, ascii, trim_prefix}
use psychic_computing_machin.Nodeproto.{Hashing, hex_encode, secret_hash, parse_token, hash_matches}
use psychic_computing_machin.Gateway.{
  AccessPoint, Body, timed_out, answered, playlist, serve_playlist, serve_entry, max_playlist_size,
}
use psychic_computing_machin.Gateway.Delivery.{
  is_remuxed, serve_entry_remuxed, serve_playlist_whole,
}
use psychic_computing_machin.Gateway.NodeApi.{NodeRow, Control, auth_node, serve_node_api}
use psychic_computing_machin.Gateway.NodeGuard.{IsProved, is_private_answer, serve_node_api_guarded}

abbrev film : AccessPoint
film = record {
  id = 5;
  visibility = ascii "public";
  status = ascii "active";
  stream = record {
    id = 7;
    source_type = ascii "hls";
    source_url = ascii "http://s/";
    source_username = none;
    source_password_enc = none;
    status = ascii "active";
    allow_remux = false;
    trust_private_source = false;
    node = none;
  };
}

abbrev manifest : Body
manifest = record {
  content_type = [];
  bytes = ascii "#EXTM3U";
  head_fails = false;
  rest_fails = false;
}

abbrev unchanged : Bytes → Result ℕ Bytes
unchanged text = ok text

abbrev all_valid : Bytes → Bool
all_valid s = true

-- No session the first time, one the second.
serve_entry_remuxed_example :
    is_remuxed (serve_entry all_valid unchanged film false true timed_out (answered 200 manifest))
    ≡ true
serve_entry_remuxed_example =
    serve_entry_remuxed all_valid unchanged film false true timed_out (answered 200 manifest) refl

manifest_served : serve_playlist unchanged manifest ≡ playlist (ascii "#EXTM3U")
unfolding serve_playlist
manifest_served = refl

serve_playlist_whole_example :
    (unchanged manifest.bytes ≡ ok (ascii "#EXTM3U")) × (length manifest.bytes ≤ max_playlist_size)
serve_playlist_whole_example =
    serve_playlist_whole all_valid unchanged manifest (ascii "#EXTM3U") manifest_served

abbrev plain_hash : Hashing
plain_hash = record { sha256 = λ s. s; hmac = λ key message. message }

abbrev node_secret : Bytes
node_secret = ascii "0123456789abcdef0123456789abcdef0123456789abcdef0123456789abcdef"

abbrev node_row : NodeRow
node_row = record {
  id = 4;
  token_hash =
      ascii
        "30313233343536373839616263646566303132333435363738396162636465663031323334353637383961626364656630313233343536373839616263646566";
  status = ascii "active";
}

abbrev control : Control
control = record {
  node_by_id = λ id. some node_row;
  node_streams = λ id. some [];
  node_revocations = λ id. some ([], []);
  decrypt_stored = none;
  encrypt_for = λ key s. none;
  executable_sum = none;
}

abbrev bearer : Bytes
bearer = ascii "Bearer svn_4_" ++ node_secret

proved : auth_node plain_hash control bearer ≡ some (node_row, node_secret)
unfolding auth_node trim_prefix parse_token hash_matches secret_hash hex_encode
proved = refl

config_given :
    is_private_answer
      (serve_node_api plain_hash control (ascii "GET") (ascii "/_sv/node/config") bearer)
    ≡ true
unfolding serve_node_api trim_prefix parse_token hash_matches secret_hash hex_encode
config_given = refl

serve_node_api_guarded_example :
    (n : NodeRow) × ((secret : Bytes) × IsProved plain_hash control bearer n secret)
serve_node_api_guarded_example =
    serve_node_api_guarded plain_hash control (ascii "GET") (ascii "/_sv/node/config") bearer
      config_given
