-- ===== src/Slate/Sessions.antt =====
-- The manager of gateway/internal/slate/slate.go: the encoder sessions, the personal pages and what
-- is remembered of failures. An HMAC of a page is a function of it, the outcome of `startLocked` an
-- argument, and times are numbers.
use psychic_computing_machin.Common.{
  ℕ, ◌+◌, ◌-◌, ◌*◌, Bool, true, false, ◌&&◌, Option, none, some, List, [], ◌∷◌, length, take, ltb,
  nat_eq, list_eq, ◌==◌, if◌then◌else◌, Result, ok, err,
}
use psychic_computing_machin.Common.Text.{Bytes, ascii, index}
use psychic_computing_machin.Common.Map.{Map, lookup, insert, erase}
use psychic_computing_machin.Remux.{second}
use psychic_computing_machin.Slate.Route.{split_variant}

abbrev pub idle_limit : ℕ
idle_limit = 90 * second

abbrev pub restart_backoff : ℕ
restart_backoff = 10 * second

abbrev pub short_lived : ℕ
short_lived = 30 * second

abbrev pub max_personal : ℕ
max_personal = 3

abbrev pub max_processes : ℕ
max_processes = 4

abbrev pub radio_mute : ℕ
radio_mute = 5 * 60 * second

pub record AudioSettings : Type 0 where
  pub file : Bytes
  pub url : Bytes
  pub volume : ℕ

pub record SlateText : Type 0 where
  pub title : Bytes
  pub subtitle : Bytes

-- A personal page; `last_used` is not signed.
pub record Descriptor : Type 0 where
  pub variant : Bytes
  pub ap_id : ℕ
  pub token_id : ℕ
  pub cutoff : ℕ
  pub last_used : ℕ

-- The audio is none where the settings were not loaded; `done` is set when the process has ended.
pub record SlateSession : Type 0 where
  pub started : ℕ
  pub done : Bool
  pub last_used : ℕ
  pub used_radio : Bool
  pub audio : Option AudioSettings
  pub text : SlateText

pub record SlateManager : Type 0 where
  pub sessions : Map Bytes SlateSession
  pub personal : Map Bytes Descriptor
  pub failed_at : Map Bytes ℕ
  pub radio_muted : Map Bytes ℕ
  pub fallbacks : Map Bytes Bytes
  pub stopped : Bool

abbrev pub new_slates : SlateManager
new_slates = record {
  sessions = [];
  personal = [];
  failed_at = [];
  radio_muted = [];
  fallbacks = [];
  stopped = false;
}

pub data SlateError : Type 0 where
  not_exist closed backing_off cap_reached start_failed : SlateError

-- A map without the entries that fail the test.
unfoldable pub retain {ℓ} : {V : Type ℓ} → (Bytes → V → Bool) → Map Bytes V → Map Bytes V
retain p [] = []
retain p ((k, v) ∷ m) = let rest = retain p m in if p k v then (k, v) ∷ rest else rest

-- strings.SplitN(id, "/", 2)[0]
unfoldable pub variant_part : Bytes → Bytes
variant_part id = elim (index id (ascii "/")) [ none ↦ id | some i ↦ take i id ]

abbrev pub is_generic : Bytes → Bool
is_generic id = elim (index id (ascii "/")) [ none ↦ true | some i ↦ false ]

-- The base that `splitVariant` returns, empty where it fails.
unfoldable pub base_of : Bytes → Bytes
base_of v = elim (split_variant v) [ none ↦ [] | some (base, reason) ↦ base ]

-- The remembered target; an empty one counts as none.
abbrev pub remembered : Option Bytes → Option Bytes
remembered none = none
remembered (some []) = none
remembered (some (c ∷ s)) = some (c ∷ s)

abbrev pub is_muted : ℕ → Option ℕ → Bool
is_muted now none = false
is_muted now (some until) = ltb now until

abbrev pub is_backing_off : ℕ → Option ℕ → Bool
is_backing_off now none = false
is_backing_off now (some t) = ltb (now - t) restart_backoff

-- The target whose session is used, and the manager without a fallback that is forgotten.
unfoldable pub recall : Bytes → SlateManager → SlateManager × (Bytes × Option SlateSession)
recall id m = elim (lookup id m.sessions) [
  | some s ↦ (m, (id, some s))
  | none ↦ elim (remembered (lookup id m.fallbacks)) [
    | none ↦ (m, (id, none))
    | some target ↦
        let forgotten = record m { fallbacks = erase id m.fallbacks } in
        if ltb (length m.sessions) 6
        then (forgotten, (id, none))
        else elim (lookup target m.sessions) [
          | none ↦ (forgotten, (target, none))
          | some s ↦ (m, (target, some s))
        ]
  ]
]

-- A session whose process has ended is dropped.
unfoldable pub retire :
    ℕ → Bytes → Bytes → Option SlateSession → SlateManager → SlateManager × Option SlateSession
retire now id actual none m = (m, none)
retire now id actual (some s) m =
    let noted =
      if s.used_radio
      then record m {
        radio_muted = insert actual (now + radio_mute) m.radio_muted;
        failed_at = erase actual m.failed_at;
      }
      else if ltb (now - s.started) short_lived
      then record m { failed_at = insert actual now m.failed_at }
      else m in
    if s.done
    then (
      record noted { sessions = erase actual m.sessions; fallbacks = erase id m.fallbacks },
      none,
    )
    else (m, some s)

-- The first of the targets, in the order of the iteration, that passes the test.
unfoldable pub pick :
    (Bytes → Bool) → List Bytes → Map Bytes SlateSession → Option (Bytes × SlateSession)
pick p [] sessions = none
pick p (target ∷ targets) sessions =
    let rest = pick p targets sessions in
    if p target
    then elim (lookup target sessions) [ none ↦ rest | some s ↦ some (target, s) ]
    else rest

unfoldable pub touch_slate :
    ℕ → Bytes → SlateSession → SlateManager → SlateManager × Result SlateError Bytes
touch_slate now target s m =
    (record m { sessions = insert target (record s { last_used = now }) m.sessions }, ok target)

-- A generic session that runs already serves in place of a new one.
unfoldable pub fall_back :
    List Bytes
    → List Bytes
    → ℕ
    → Bytes
    → Bytes
    → SlateManager
    → SlateManager × Result SlateError Bytes
unfolding pick touch_slate base_of variant_part
fall_back order order' now id variant m =
    let serve : Bytes → SlateSession → SlateManager × Result SlateError Bytes = λ target s.
      touch_slate now target s (record m { fallbacks = insert id target m.fallbacks }) in
    let same_base : Bytes → Bool =
      λ target. is_generic target && (base_of (variant_part target) == base_of variant) in
    elim (pick same_base order m.sessions) [
      | some (target, s) ↦ serve target s
      | none ↦ elim (pick is_generic order' m.sessions) [
        | some (target, s) ↦ serve target s
        | none ↦ (m, err cap_reached)
      ]
    ]
