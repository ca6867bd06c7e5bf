-- ===== src/Examples/HlsRuns.antt =====
-- A media playlist of gateway/internal/hls with a key, a segment and carriage returns.
use psychic_computing_machin.Common.{
  ◌≡◌, ◌||◌, ◌++◌, contains, nat_eq, if◌then◌else◌, Result, ok, err,
}
use psychic_computing_machin.Common.Text.{Bytes, ascii}
use psychic_computing_machin.Hls.{rewrite_playlist}
use psychic_computing_machin.Hls.References.{
  references, source_lines, is_ok, all_proxied, rewrite_playlist-is_ok,
}

abbrev at_source : Bytes → Result Bytes Bytes
at_source u = ok (ascii "s/" ++ u)

abbrev gateway_link : Bytes → Result Bytes Bytes
gateway_link target =
    if contains b'"' target || contains b'\n' target
    then err (ascii "unusable")
    else ok (ascii "/p/r/" ++ target)

rewrite_playlist-is_ok_example :
    is_ok (rewrite_playlist at_source gateway_link (ascii "#EXTM3U\na.ts"))
    ≡ all_proxied at_source gateway_link (references (source_lines (ascii "#EXTM3U\na.ts")))
rewrite_playlist-is_ok_example =
    rewrite_playlist-is_ok at_source gateway_link (ascii "#EXTM3U\na.ts")
