-- ===== src/Node/Serve.antt =====
-- The viewer requests of gateway/internal/node/node.go. The parsed URL, the headers and the files
-- of the remux directories are arguments.
use psychic_computing_machin.Common.{
  ℕ, zero, suc, ◌/◌, Bool, true, false, ◌&&◌, ◌||◌, not, Option, none, some, List, [], ◌∷◌, ◌++◌,
  ltb, eqb, if◌then◌else◌, length, take, drop, contains, nat_eq, list_eq, ◌==◌,
}
use psychic_computing_machin.Common.Text.{
  Bytes, ascii, has_prefix, has_suffix, trim_prefix, split, trim_space,
}
use psychic_computing_machin.Common.Decimal.{ℤ, pos, negsuc, int_eq, parse_int, is_digit}
use psychic_computing_machin.Nodeproto.{Hashing, verify, all_hex}
use psychic_computing_machin.Remux.{second, current, get_path}
use psychic_computing_machin.Node.Types.{Node}
use psychic_computing_machin.Node.Control.{expire_config, record_viewer}

unfoldable pub all_digits : Bytes → Bool
all_digits [] = true
all_digits (c ∷ s) = is_digit c && all_digits s

unfoldable pub valid_name : Bytes → Bool
unfolding has_suffix all_digits is_digit
valid_name name =
    if name == ascii "index.m3u8"
    then true
    else if not (has_prefix name (ascii "seg"))
        || (not (has_suffix name (ascii ".ts")) || not (eqb (length name) 12))
    then false
    else all_digits (take 6 (drop 3 name))

pub record Request : Type 0 where
  pub method : Bytes
  pub path : Bytes
  pub raw_query : Bytes
  pub query : Bytes → Bytes  -- `URL.Query().Get`
  pub viewer_header : Bytes
  pub forwarded_for : Bytes
  pub remote_addr : Bytes

-- What net.SplitHostPort, net.ParseIP and os.ReadFile answer.
pub record Host : Type 0 where
  pub split_host_port : Bytes → Option Bytes
  pub valid_ip : Bytes → Bool
  pub is_loopback : Bytes → Bool
  pub read_file : Bytes × Bytes → Option Bytes

pub data Answer : Type 0 where
  healthy : Answer
  status : ℕ → Answer
  playlist : Bytes → Answer
  segment : Bytes × Bytes → Answer

-- bufio.Scanner over lines below its limit: no line after a final newline.
unfoldable pub scan_lines : List Bytes → List Bytes
scan_lines [] = []
scan_lines (l ∷ []) = if eqb (length l) 0 then [] else l ∷ []
scan_lines (l ∷ k ∷ ls) = l ∷ scan_lines (k ∷ ls)

unfoldable pub sign_line : Bytes → Bytes → Bytes
unfolding valid_name
sign_line raw_query text =
    let line = trim_space text in
    if not (eqb (length line) 0) && (not (has_prefix line (ascii "#")) && valid_name line)
    then line ++ (b'?' ∷ raw_query)
    else line

unfoldable pub sign_lines : Bytes → List Bytes → Bytes
unfolding sign_line
sign_lines raw_query [] = []
sign_lines raw_query (l ∷ ls) = sign_line raw_query l ++ (b'\n' ∷ sign_lines raw_query ls)

unfoldable pub sign_segments : Bytes → Bytes → Bytes
unfolding sign_lines scan_lines
sign_segments text raw_query = sign_lines raw_query (scan_lines (split b'\n' text))

abbrev pub first_part : List Bytes → Bytes
first_part [] = []
first_part (p ∷ ps) = p

unfoldable pub viewer_key : Host → Bool → Request → Bytes
viewer_key host via_control r =
    let ip : Bytes = elim (host.split_host_port r.remote_addr) [
      | none ↦ r.remote_addr
      | some h ↦ h
    ] in
    let xff = trim_space (first_part (split b',' r.forwarded_for)) in
    if via_control && (eqb (length r.viewer_header) 16 && all_hex r.viewer_header)
    then ascii "v:" ++ r.viewer_header
    else if host.valid_ip ip && (host.is_loopback ip && host.valid_ip xff)
    then xff
    else ip

unfoldable pub note_viewer : Host → ℕ → ℕ → Request → Bool → Node → Node
unfolding viewer_key record_viewer
note_viewer host now stream_id r via_control n =
    record_viewer now stream_id (viewer_key host via_control r) n

-- The grant that the URL carries.
pub record Grant : Type 0 where
  pub ap : ℤ
  pub tok : ℤ
  pub exp : ℤ
  pub sig : Bytes

abbrev pub grant_of : Option ℤ → Option ℤ → Option ℤ → Bytes → Option Grant
grant_of (some ap) (some tok) (some exp) sig =
    some (record { ap = ap; tok = tok; exp = exp; sig = sig })
grant_of none tok exp sig = none
grant_of (some ap) none exp sig = none
grant_of (some ap) (some tok) none sig = none

unfoldable pub read_grant : Request → Option Grant
read_grant r =
    grant_of (parse_int (r.query (ascii "ap"))) (parse_int (r.query (ascii "tok")))
      (parse_int (r.query (ascii "exp"))) (r.query (ascii "sig"))

-- `time.Now().Unix() > exp`
abbrev pub is_past : ℕ → ℤ → Bool
is_past now (negsuc n) = true
is_past now (pos exp) = ltb exp (now / second)

unfoldable pub is_granted : Hashing → ℕ → ℕ → Grant → Node → Bool
is_granted h now stream_id g n =
    not (is_past now g.exp) && verify h n.secret (pos stream_id) g.ap g.tok g.exp g.sig

unfoldable pub is_allowed : ℕ → Grant → Node → Bool
is_allowed stream_id g n =
    contains stream_id n.assigned
    && (not (contains g.ap n.revoked_aps)
        && ((g.tok == pos 0) || not (contains g.tok n.revoked_tokens)))

-- A file of the stream's present session.
unfoldable pub serve_file : Host → ℕ → ℕ → Bytes → Grant → Request → Node → Node × Answer
unfolding note_viewer sign_segments
serve_file host now stream_id name g r n = elim (current stream_id n.remux) [
  | none ↦ (n, status 503)
  | some p ↦
      let (remux', path) = get_path now stream_id (n.remux.heap p).id name n.remux in
      let n' = record n { remux = remux' } in
      elim path [
        | none ↦ (n', status 404)
        | some file ↦
            if name == ascii "index.m3u8"
            then (
              note_viewer host now stream_id r ((g.ap == pos 0) && (g.tok == pos 0)) n',
              elim (host.read_file file) [
                | none ↦ status 503
                | some text ↦ playlist (sign_segments text r.raw_query)
              ],
            )
            else (n', elim (host.read_file file) [ none ↦ status 404 | some bytes ↦ segment file ])
      ]
]

unfoldable pub serve_stream : Hashing → Host → ℕ → ℕ → Bytes → Request → Node → Node × Answer
unfolding serve_file is_allowed is_granted read_grant
serve_stream h host now stream_id name r n = elim (read_grant r) [
  | none ↦ (n, status 403)
  | some g ↦
      if not (is_granted h now stream_id g n)
      then (n, status 403)
      else if not (is_allowed stream_id g n)
      then (n, status 410)
      else serve_file host now stream_id name g r n
]

-- A positive stream number; anything else is not found.
abbrev pub positive : Option ℤ → Option ℕ
positive none = none
positive (some (negsuc n)) = none
positive (some (pos zero)) = none
positive (some (pos (suc n))) = some (suc n)

-- The path `/n/<stream>/<name>`, cut at its slashes.
unfoldable pub route_parts : List Bytes → Option (ℕ × Bytes)
unfolding valid_name
route_parts (a ∷ b ∷ name ∷ []) = elim (positive (parse_int b)) [
  | none ↦ none
  | some id ↦ if (a == ascii "n") && valid_name name then some (id, name) else none
]
route_parts _ = none

unfoldable pub route : Bytes → Option (ℕ × Bytes)
unfolding route_parts
route path = route_parts (split b'/' (trim_prefix path (ascii "/")))

unfoldable pub serve : Hashing → Host → ℕ → Request → Node → Node × Answer
unfolding route serve_stream expire_config
serve h host now r n =
    if r.path == ascii "/healthz"
    then (n, healthy)
    else if not (r.method == ascii "GET") && not (r.method == ascii "HEAD")
    then (n, status 405)
    else (let n' = expire_config now n in
        elim (route r.path) [
          | none ↦ (n', status 404)
          | some (stream_id, name) ↦ serve_stream h host now stream_id name r n'
        ])
