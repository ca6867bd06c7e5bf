-- ===== src/Examples/LeakRuns.antt =====
-- A private access point whose token stands in a public text.
use psychic_computing_machin.Common.{◌≡◌, refl, some, [], ◌∷◌, ◌++◌, nat_eq, list_eq}
use psychic_computing_machin.Common.Text.{Bytes, ascii, index, trim_right, contains_text}
use psychic_computing_machin.Leakcheck.{AccessPointInfo, Match, confirmed, anchor, classify}
use psychic_computing_machin.Leakcheck.Evidence.{
  IsLeaked, IsRedacted, classify_confirmed, classify-IsRedacted,
}

abbrev leaked_token : Bytes
leaked_token = ascii "0123456789abcdef0123456789abcdef0123456789abcdef"

abbrev same_hash : Bytes → Bytes
same_hash token = token

abbrev watched : AccessPointInfo
watched = record {
  id = 5;
  stream_id = 7;
  public_path = ascii "live";
  visibility = ascii "private";
  tokens = record { id = 3; hash = leaked_token } ∷ [];
}

abbrev post : Bytes
post = ascii "see https://tv/live/" ++ (leaked_token ++ ascii ".m3u8")

abbrev finding : Match
finding = record {
  confidence = confirmed;
  access_point_id = 5;
  stream_id = 7;
  token_id = some 3;
  matched_value = ascii "https://tv/live/<redacted token, hash 0123456789ab>";
}

found : classify same_hash watched (ascii "https://tv/") post ≡ some finding
unfolding classify index trim_right contains_text
found = refl

classify_confirmed_example : IsLeaked same_hash watched (ascii "https://tv/") post finding
classify_confirmed_example =
    classify_confirmed same_hash watched (ascii "https://tv/") post finding refl found refl

classify-IsRedacted_example :
    IsRedacted same_hash (anchor (ascii "https://tv/") watched) post finding.matched_value
classify-IsRedacted_example =
    classify-IsRedacted same_hash watched (ascii "https://tv/") post finding found
