-- ===== src/Examples/SlateRuns.antt =====
-- Requests for slates, to gateway/internal/gatewayhttp/handler.go and gateway/internal/slate/slate.go.
use psychic_computing_machin.Common.{◌≡◌, refl, false, none, some, List, [], ◌∷◌, list_eq, nat_eq}
use psychic_computing_machin.Common.Text.{Bytes, ascii, split, trim_prefix, index, has_suffix}
use psychic_computing_machin.Common.Map.{lookup, insert, erase}
use psychic_computing_machin.Slate.{
  page, serve_slate, new_slates, Encoder, SlateOp, gets, slate_run, serve_session,
}
use psychic_computing_machin.Slate.Limits.{IsBounded}
use psychic_computing_machin.Slate.Capacity.{slate_run-IsBounded, fallback_forgotten}
use psychic_computing_machin.Slate.Valid.{IsPage, serve_slate-IsPage}

asked :
    serve_slate (ascii "/_sv/slate/unavailable/limited_bandwidth/seg000001.ts")
    ≡ page (ascii "unavailable:limited_bandwidth") [] (ascii "seg000001.ts")
unfolding serve_slate split trim_prefix index has_suffix
asked = refl

serve_slate-IsPage_example :
    IsPage (ascii "unavailable:limited_bandwidth") [] (ascii "seg000001.ts")
serve_slate-IsPage_example =
    serve_slate-IsPage (ascii "/_sv/slate/unavailable/limited_bandwidth/seg000001.ts")
      (ascii "unavailable:limited_bandwidth") [] (ascii "seg000001.ts") asked

-- Every encoder starts.
abbrev starts : Encoder
starts = record {
  signature = λ variant ap token cutoff. ascii "0000000000000000000000000000000000000000";
  start = λ now variant d silent. some (record {
    started = now;
    done = false;
    last_used = now;
    used_radio = false;
    audio = none;
    text = record { title = []; subtitle = [] };
  });
}

abbrev request : Bytes → SlateOp
request variant = gets (ascii "unavailable" ∷ []) [] 5 variant [] (ascii "index.m3u8")

-- Five pages without a key: the last one falls back to the first.
abbrev five : List SlateOp
five =
    request (ascii "unavailable")
    ∷ request (ascii "unavailable:limited_bandwidth")
    ∷ request (ascii "unavailable:not_intended_for_public")
    ∷ request (ascii "temporarily-unavailable")
    ∷ request (ascii "unavailable:access_revoked_by_owner")
    ∷ []

slate_run-IsBounded_example : IsBounded (slate_run starts five new_slates)
slate_run-IsBounded_example = slate_run-IsBounded starts five

fallback_forgotten_example :
    serve_session starts [] [] 6
      (ascii "unavailable:access_revoked_by_owner")
      (ascii "unavailable:access_revoked_by_owner")
      none
      (slate_run starts five new_slates)
    ≡ serve_session starts [] [] 6
        (ascii "unavailable:access_revoked_by_owner")
        (ascii "unavailable:access_revoked_by_owner")
        none
        (record (slate_run starts five new_slates) {
          fallbacks =
              erase
                (ascii "unavailable:access_revoked_by_owner")
                (slate_run starts five new_slates).fallbacks;
        })
unfolding slate_run lookup insert index split erase
fallback_forgotten_example =
    fallback_forgotten starts five [] [] 6 (ascii "unavailable:access_revoked_by_owner")
      (ascii "unavailable:access_revoked_by_owner") (ascii "navailable") b'u' none refl refl
