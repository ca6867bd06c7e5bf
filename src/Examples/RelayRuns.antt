-- ===== src/Examples/RelayRuns.antt =====
-- The always-on supervisor of gateway/internal/gatewayhttp/alwayson.go with a source that is down at first.
use psychic_computing_machin.Common.{
  leb, ◌⊎◌, some_injective, ℕ, suc, ◌+◌, ◌*◌, ◌≤◌, ◌≡◌, refl, subst, true, false, none, some, [],
  ◌∷◌, arith, nat_eq,
}
use psychic_computing_machin.Common.Text.{Bytes, ascii}
use psychic_computing_machin.Common.Map.{lookup, insert, erase}
use psychic_computing_machin.Gateway.{Stream}
use psychic_computing_machin.Remux.{second}
use psychic_computing_machin.Relay.{
  Sessions, Supervisor, new_relay, Turn, reconcile, run_always_on, attempt, max_relays, choose,
  backoff,
}
use psychic_computing_machin.Relay.Delay.{doubled, backoff-doubled}
use psychic_computing_machin.Relay.Keeping.{IsEarly}
use psychic_computing_machin.Relay.Trying.{IsWantedIn, HasSlot, some_due}
use psychic_computing_machin.Relay.Waiting.{attempts, sightings}
use psychic_computing_machin.Relay.Retry.{no_early_retry, retried}

-- The state counts the starts: the first one fails, later ones leave a session.
abbrev down : Sessions
down = record {
  State = ℕ;
  slots = 2;
  pinned = λ s. [];
  pin_relay = λ id b s. s;
  stop_relay = λ id s. s;
  find_existing = λ id text s. (s, leb 2 s);
  start_relay = λ st text s. (suc s, leb 1 s);
}

abbrev source : Stream
source = record {
  id = 7;
  source_type = ascii "hls";
  source_url = ascii "http://a/b.m3u8";
  source_username = none;
  source_password_enc = none;
  status = ascii "active";
  allow_remux = true;
  trust_private_source = false;
  node = none;
}

abbrev empty : Supervisor down
empty = record { sessions = 0; relays = []; events = [] }

abbrev sign_source : Stream → Bytes
sign_source st = st.source_url

abbrev turn_at : ℕ → Turn down
turn_at now = record {
  before = λ s. s;
  streams = some (source ∷ []);
  order = record { id = 7; now = now; later = now } ∷ [];
}

has_slot : HasSlot down sign_source 7 false (source ∷ [])
unfolding choose max_relays insert lookup erase
has_slot = (source, refl)

turn-IsWantedIn : (now : ℕ) → IsWantedIn down sign_source 7 false (turn_at now)
turn-IsWantedIn now sts e =
    subst (λ l. HasSlot down sign_source 7 false l) (some_injective _ sts e) has_slot

turn-IsEarly : IsEarly down sign_source 7 false (10 * second + doubled 0) (turn_at (15 * second))
unfolding doubled
turn-IsEarly sts e = (turn-IsWantedIn (15 * second) sts e, (ground arith, tt))

due : some_due 7 (10 * second + doubled 0) (turn_at (41 * second)).order ≡ true
unfolding some_due doubled
due = refl

no_early_retry_example :
    attempts 7
      (run_always_on down sign_source false
        (turn_at (15 * second) ∷ [])
        (attempt down (10 * second) source (sign_source source) new_relay empty)).events
    ≡ suc (attempts 7 [])
no_early_retry_example =
    no_early_retry down sign_source false (turn_at (15 * second) ∷ []) (10 * second) source
      (sign_source source) new_relay empty refl (turn-IsEarly, tt)

retried_example :
    (suc (suc (attempts 7 []))
      ≤ attempts 7
          (reconcile down sign_source false (source ∷ []) (turn_at (41 * second)).order (
            run_always_on down sign_source false
              (turn_at (15 * second) ∷ [])
              (attempt down (10 * second) source (sign_source source) new_relay empty))).events)
    ⊎ (suc (sightings 7 [])
        ≤ sightings 7
            (reconcile down sign_source false (source ∷ []) (turn_at (41 * second)).order (
              run_always_on down sign_source false
                (turn_at (15 * second) ∷ [])
                (attempt down (10 * second) source (sign_source source) new_relay empty))).events)
retried_example =
    retried down sign_source false (turn_at (15 * second) ∷ []) (source ∷ [])
      (turn_at (41 * second)).order (10 * second) source (sign_source source) new_relay empty refl
      (turn-IsWantedIn (15 * second), tt) has_slot due

backoff-doubled_example : backoff (suc 40) ≡ doubled 40
backoff-doubled_example = backoff-doubled 40
