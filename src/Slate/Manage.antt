-- ===== src/Slate/Manage.antt =====
-- The operations of the manager of gateway/internal/slate/slate.go: `Prepare`, `GetPath` up to the
-- wait for the first playlist, `ReapIdle`, `RestartOnAudioChange` and `Close`.
use psychic_computing_machin.Common.{
  ℕ, ◌-◌, Bool, true, ◌&&◌, ◌||◌, not, Option, none, some, List, [], ◌∷◌, ◌++◌, length, leb, eqb,
  nat_eq, list_eq, ◌==◌, if◌then◌else◌, Result, err,
}
use psychic_computing_machin.Common.Text.{Bytes}
use psychic_computing_machin.Common.Map.{lookup, insert}
use psychic_computing_machin.Slate.Route.{valid_variant, valid_slate_name, valid_key, split_variant}
use psychic_computing_machin.Slate.Sessions.{
  idle_limit, max_personal, max_processes, AudioSettings, SlateText, Descriptor, SlateSession,
  SlateManager, SlateError, not_exist, closed, backing_off, start_failed, retain, variant_part,
  is_muted, is_backing_off, recall, retire, touch_slate, fall_back,
}

-- What the encoder's environment decides: `signature`, over the variant, the access point, the token
-- and the cut-off; and whether `startLocked` starts an encoder for a variant, a personal page and
-- forced silence.
pub record Encoder : Type 0 where
  pub signature : Bytes → ℕ → ℕ → ℕ → Bytes
  pub start : ℕ → Bytes → Option Descriptor → Bool → Option SlateSession

unfoldable pub page_signature : Encoder → Descriptor → Bytes
page_signature e d = e.signature d.variant d.ap_id d.token_id d.cutoff

-- An id that is not positive is 0, and the zero time is none.
unfoldable pub prepare :
    Encoder → ℕ → Bytes → ℕ → ℕ → Option ℕ → SlateManager → SlateManager × Bytes
unfolding valid_variant
prepare e now variant ap token none m = (m, [])
prepare e now variant ap token (some cutoff) m =
    let key = e.signature variant ap token cutoff in
    let fresh : Descriptor = record {
      variant = variant;
      ap_id = ap;
      token_id = token;
      cutoff = cutoff;
      last_used = now;
    } in
    if (not (valid_variant variant) || eqb ap 0) || m.stopped
    then (m, [])
    else elim (lookup key m.personal) [
      | some old ↦
          (record m { personal = insert key (record old { last_used = now }) m.personal }, key)
      | none ↦
          if leb max_personal (length m.personal)
          then (m, [])
          else (record m { personal = insert key fresh m.personal }, key)
    ]

-- No session of the page runs.
unfoldable pub begin_session :
    Encoder
    → List Bytes
    → List Bytes
    → ℕ
    → Bytes
    → Bytes
    → Option Descriptor
    → SlateManager
    → SlateManager × Result SlateError Bytes
unfolding fall_back touch_slate
begin_session e order order' now id variant d m =
    if is_backing_off now (lookup id m.failed_at)
    then (m, err backing_off)
    else if leb max_processes (length m.sessions)
    then fall_back order order' now id variant m
    else elim (e.start now variant d (is_muted now (lookup id m.radio_muted))) [
      | none ↦ (record m { failed_at = insert id now m.failed_at }, err start_failed)
      | some s ↦ touch_slate now id s m
    ]

-- What was found for the page, once the process of a session is seen to have ended or not.
unfoldable pub serve_found :
    Encoder
    → List Bytes
    → List Bytes
    → ℕ
    → Bytes
    → Bytes
    → Option Descriptor
    → SlateManager × (Bytes × Option SlateSession)
    → SlateManager × Result SlateError Bytes
unfolding retire begin_session touch_slate
serve_found e order order' now id variant d (m, (actual, found)) =
    let (m', live) = retire now id actual found m in
    elim live [
      | some s ↦ touch_slate now actual s m'
      | none ↦ begin_session e order order' now id variant d m'
    ]

unfoldable pub serve_session :
    Encoder
    → List Bytes
    → List Bytes
    → ℕ
    → Bytes
    → Bytes
    → Option Descriptor
    → SlateManager
    → SlateManager × Result SlateError Bytes
unfolding recall serve_found
serve_session e order order' now id variant d m =
    serve_found e order order' now id variant d (recall id m)

-- The result is the session whose directory the file is in. The two orders are those in which the
-- program goes through its sessions.
unfoldable pub get_slate_path :
    Encoder
    → List Bytes
    → List Bytes
    → ℕ
    → Bytes
    → Bytes
    → Bytes
    → SlateManager
    → SlateManager × Result SlateError Bytes
unfolding serve_session page_signature valid_variant valid_slate_name valid_key
get_slate_path e order order' now variant key name m =
    if (not (valid_variant variant) || not (valid_slate_name name))
      || (not (eqb (length key) 0) && not (valid_key key))
    then (m, err not_exist)
    else if m.stopped
    then (m, err closed)
    else if eqb (length key) 0
    then serve_session e order order' now variant variant none m
    else elim (lookup key m.personal) [
      | none ↦ (m, err not_exist)
      | some d ↦
          let used = record d { last_used = now } in
          if not (d.variant == variant) || not (key == page_signature e d)
          then (m, err not_exist)
          else serve_session e order order' now (variant ++ (b'/' ∷ key)) variant (some used)
              (record m { personal = insert key used m.personal })
    ]

unfoldable pub reap_slates : ℕ → SlateManager → SlateManager
unfolding retain
reap_slates now m = record m {
  sessions = retain (λ id s. leb (now - s.last_used) idle_limit) m.sessions;
  personal = retain (λ key d. leb (now - d.last_used) idle_limit) m.personal;
}

abbrev pub same_audio : AudioSettings → AudioSettings → Bool
same_audio a b = (a.file == b.file) && ((a.url == b.url) && eqb a.volume b.volume)

-- No loader, or settings that were not loaded when the session started, change nothing.
unfoldable pub keeps_audio : Option AudioSettings → Option AudioSettings → Bool
keeps_audio none _ = true
keeps_audio (some now) none = true
keeps_audio (some now) (some old) = same_audio old now

unfoldable pub keeps_text : (Bytes → Option SlateText) → Bytes → SlateSession → Bool
unfolding variant_part split_variant
keeps_text load id s = elim (split_variant (variant_part id)) [
  | none ↦ true
  | some (base, reason) ↦ elim (load reason) [
    | none ↦ true
    | some t ↦ (t.title == s.text.title) && (t.subtitle == s.text.subtitle)
  ]
]

-- The audio settings are none without a loader and the inner result none where loading fails; a text
-- is none where it is not loaded or not within its limits.
unfoldable pub restart_changed :
    Option (Option AudioSettings) → (Bytes → Option SlateText) → SlateManager → SlateManager
unfolding keeps_audio keeps_text retain
restart_changed (some none) load m = m
restart_changed none load m = record m {
  sessions = retain (λ id s. keeps_text load id s) m.sessions;
}
restart_changed (some (some now)) load m = record m {
  sessions = retain (λ id s. keeps_audio (some now) s.audio && keeps_text load id s) m.sessions;
}

unfoldable pub close_slates : SlateManager → SlateManager
close_slates m = if m.stopped then m else record m { stopped = true; sessions = [] }

-- The process of a session ends.
unfoldable pub exit_slate : Bytes → SlateManager → SlateManager
exit_slate id m = elim (lookup id m.sessions) [
  | none ↦ m
  | some s ↦ record m { sessions = insert id (record s { done = true }) m.sessions }
]

pub data SlateOp : Type 0 where
  prepares : ℕ → Bytes → ℕ → ℕ → Option ℕ → SlateOp
  gets : List Bytes → List Bytes → ℕ → Bytes → Bytes → Bytes → SlateOp
  reaps : ℕ → SlateOp
  restarts : Option (Option AudioSettings) → (Bytes → Option SlateText) → SlateOp
  closes : SlateOp
  exits : Bytes → SlateOp

unfoldable pub slate_step : Encoder → SlateOp → SlateManager → SlateManager
unfolding prepare get_slate_path reap_slates restart_changed close_slates exit_slate
slate_step e (prepares now variant ap token cutoff) m = (prepare e now variant ap token cutoff m).0
slate_step e (gets order order' now variant key name) m =
    (get_slate_path e order order' now variant key name m).0
slate_step e (reaps now) m = reap_slates now m
slate_step e (restarts audio load) m = restart_changed audio load m
slate_step e closes m = close_slates m
slate_step e (exits id) m = exit_slate id m

unfoldable pub slate_run : Encoder → List SlateOp → SlateManager → SlateManager
unfolding slate_step
slate_run e [] m = m
slate_run e (o ∷ os) m = slate_run e os (slate_step e o m)
