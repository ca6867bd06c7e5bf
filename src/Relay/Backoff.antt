-- ===== src/Relay/Backoff.antt =====
-- How long a relay that failed waits: `fail` of gateway/internal/gatewayhttp/alwayson.go. Durations
-- are int64 nanoseconds, and the shift wraps.
use psychic_computing_machin.Common.{
  ℕ, suc, ◌+◌, ◌-◌, ◌*◌, ◌%◌, ◌^◌, Option, none, ltb, leb, eqb, ◌||◌, if◌then◌else◌,
}
use psychic_computing_machin.Remux.{second}

abbrev pub min_backoff : ℕ
min_backoff = 30 * second

abbrev pub max_backoff : ℕ
max_backoff = 10 * 60 * second

abbrev pub min_healthy : ℕ
min_healthy = 2 * 60 * second

-- The bits of `alwaysOnMinBackoff << k`; from 2 ^ 63 on they stand for a negative duration.
unfoldable pub shifted : ℕ → ℕ
shifted k = (min_backoff * 2 ^ k) % 2 ^ 64

-- The wait after the given number of failures, which is 1 at least.
unfoldable pub backoff : ℕ → ℕ
unfolding shifted
backoff failures =
    let bits = shifted (failures - 1) in
    if leb (2 ^ 63) bits || (eqb bits 0 || ltb max_backoff bits) then max_backoff else bits

-- No `next_try` is 0, before every time; `running_since` is none where the source has the zero time.
pub record RelayState : Type 0 where
  pub failures : ℕ
  pub next_try : ℕ
  pub running_since : Option ℕ

abbrev pub new_relay : RelayState
new_relay = record { failures = 0; next_try = 0; running_since = none }

unfoldable pub note_failure : ℕ → RelayState → RelayState
unfolding backoff
note_failure now st = record {
  failures = suc st.failures;
  next_try = now + backoff (suc st.failures);
  running_since = none;
}
