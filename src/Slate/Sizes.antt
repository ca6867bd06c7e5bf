-- ===== src/Slate/Sizes.antt =====
-- The sizes of the maps of gateway/internal/slate/slate.go.
use psychic_computing_machin.Common.{
  suc, ◌≤◌, ◌<◌, ◌≡◌, Bool, some, [], ◌∷◌, length, nat_eq, list_eq, arith,
}
use psychic_computing_machin.Common.Text.{Bytes}
use psychic_computing_machin.Common.Map.{Map, lookup, insert, erase}
use psychic_computing_machin.Slate.{retain}

module _ {ℓ} {V : Type ℓ} where
  pub length-erase : (k : Bytes) (m : Map Bytes V) → length (erase k m) ≤ length m
  unfolding erase
  length-erase k [] = ground arith
  length-erase k ((j, v) ∷ m) = ground (arith, length-erase k m)

  -- What is already a key adds no entry.
  pub length-erase_present :
      (k : Bytes) (m : Map Bytes V) (v : V) → lookup k m ≡ some v → length (erase k m) < length m
  unfolding erase lookup
  length-erase_present k [] v h = ground arith
  length-erase_present k ((j, w) ∷ m) v h =
      ground (arith, length-erase_present k m v, length-erase k m)

  pub length-retain : (p : Bytes → V → Bool) (m : Map Bytes V) → length (retain p m) ≤ length m
  unfolding retain
  length-retain p [] = ground arith
  length-retain p ((k, v) ∷ m) = ground (arith, length-retain p m)

pub length-insert {ℓ} :
    {V : Type ℓ} (k : Bytes) (v : V) (m : Map Bytes V) → length (insert k v m) ≤ suc (length m)
unfolding insert
length-insert k v m = ground (arith, length-erase k m)

pub length-insert_present {ℓ} :
    {V : Type ℓ} (k : Bytes) (v w : V) (m : Map Bytes V)
    → lookup k m ≡ some w
    → length (insert k v m) ≤ length m
unfolding insert
length-insert_present k v w m h = ground (arith, length-erase_present k m w h)
