-- ===== src/Examples/NodeRuns.antt =====
-- A relay node of gateway/internal/node/node.go with one stream and one viewer.
use psychic_computing_machin.Common.{
  ◌*◌, ◌≡◌, inr, refl, ap, Bool, true, false, none, some, [], ◌∷◌, nat_eq, list_eq, ◌==◌,
  if◌then◌else◌,
}
use psychic_computing_machin.Common.Text.{Bytes, ascii, split, trim_prefix}
use psychic_computing_machin.Common.Map.{lookup, insert, erase}
use psychic_computing_machin.Common.Decimal.{pos, format_int, parse_int}
use psychic_computing_machin.Nodeproto.{Hashing, sign, verify, hex_encode, sign_message}
use psychic_computing_machin.Remux.{
  Manager, new_manager, second, run, step, begin, commit, find_call, current, get_path, begin_call,
  commit_call, opened,
}
use psychic_computing_machin.Node.{
  Config, Node, new_node, apply, replied, poll_once, Request, Host, Grant, read_grant, serve,
  segment,
}
use psychic_computing_machin.Node.Authority.{
  IsConfigured, IsAuthorized, is_media, serve-IsAuthorized,
}
use psychic_computing_machin.Node.Polling.{rounds, rejected_poll_stops, revoked_poll_stops}

abbrev identity_hash : Hashing
identity_hash = record { sha256 = λ s. s; hmac = λ key message. message }

abbrev files : Host
files = record {
  split_host_port = λ s. some s;
  valid_ip = λ _. true;
  is_loopback = λ _. false;
  read_file = λ _. some (ascii "#EXTM3U");
}

abbrev relay : Config
relay = record {
  node_id = 4;
  poll_seconds = pos 10;
  streams =
      record {
        id = 7;
        source_type = ascii "hls";
        source_url = ascii "http://s/";
        source_username = [];
        source_password_enc = [];
        trust_private_source = false;
      }
      ∷ [];
  revoked_access_points = pos 5 ∷ [];
  revoked_tokens = [];
}

abbrev never : Bytes → Bool
never _ = false

abbrev relaying : Manager
relaying =
    run
      (begin_call never 5 7 (ascii "sig")
        ∷ commit_call 6 0 (ascii "sig") (opened (ascii "ab") (ascii "/tmp/x") true)
        ∷ [])
      (new_manager 2)

abbrev ready : Node
ready = apply second relay (new_node 4 (ascii "k") relaying)

-- A viewer of stream 7 through access point 3, with a grant until second 20.
abbrev query : Bytes → Bytes
query k =
    if k == ascii "ap"
    then ascii "3"
    else if k == ascii "tok"
    then ascii "0"
    else if k == ascii "exp"
    then ascii "20"
    else sign identity_hash (ascii "k") (pos 7) (pos 3) (pos 0) (pos 20)

abbrev viewer : Request
viewer = record {
  method = ascii "GET";
  path = ascii "/n/7/seg000001.ts";
  raw_query = [];
  query = query;
  viewer_header = [];
  forwarded_for = [];
  remote_addr = ascii "1.2.3.4:5";
}

ready-IsConfigured : IsConfigured ready
unfolding apply
ready-IsConfigured e = cc

serves :
    (serve identity_hash files (2 * second) viewer ready).1
    ≡ segment (ascii "/tmp/x", ascii "seg000001.ts")
unfolding serve apply run step new_node new_manager begin commit insert erase lookup find_call
    current get_path read_grant parse_int verify split trim_prefix hex_encode sign_message
    format_int
serves = refl

serve-IsAuthorized_example : IsAuthorized identity_hash (2 * second) viewer ready
serve-IsAuthorized_example =
    serve-IsAuthorized identity_hash files (2 * second) viewer ready ready-IsConfigured
      (ap is_media serves)

rejected_poll_stops_example :
    is_media
      (serve identity_hash files
        (2 * second)
        viewer
        (poll_once 3
          (replied 403 none)
          (rounds ((1, 2, replied 200 (some relay)) ∷ []) (new_node 4 (ascii "k") relaying))).0).1
    ≡ false
rejected_poll_stops_example =
    rejected_poll_stops identity_hash files 4 (ascii "k") relaying
      ((1, 2, replied 200 (some relay)) ∷ []) 3 (2 * second) 403 none viewer (inr refl)

abbrev revoked_viewer : Request
revoked_viewer = record viewer { query = λ k. if k == ascii "ap" then ascii "5" else query k }

abbrev revoked_grant : Grant
revoked_grant = record {
  ap = pos 5;
  tok = pos 0;
  exp = pos 20;
  sig = sign identity_hash (ascii "k") (pos 7) (pos 3) (pos 0) (pos 20);
}

revoked_poll_stops_example :
    is_media
      (serve identity_hash files
        (2 * second)
        revoked_viewer
        (poll_once 3 (replied 200 (some relay)) (rounds [] (new_node 4 (ascii "k") relaying))).0).1
    ≡ false
unfolding rounds new_node read_grant parse_int
revoked_poll_stops_example =
    revoked_poll_stops identity_hash files 4 (ascii "k") relaying [] 3 (2 * second) relay
      revoked_viewer revoked_grant refl refl refl
