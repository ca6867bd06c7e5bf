-- ===== src/Hlspull/Source.antt =====
-- A relay of one live source by gateway/internal/hlspull/hlspull.go: its playlists are windows that
-- slide over the source's segments.
use psychic_computing_machin.Common.{
  ℕ, suc, ◌+◌, ◌≤◌, ◌<◌, ◌≡◌, Bool, false, List, [], ◌∷◌, length, ok, err,
}
use psychic_computing_machin.Common.Word.{zero_word, modulus}
use psychic_computing_machin.Hlspull.{
  Media, LoadError, copied, Round, Pull, Step, after_copy, is_fatal, max_failures,
}
use psychic_computing_machin.Hlspull.Slices.{slice}
use psychic_computing_machin.Hlspull.Window.{copy_all}
use psychic_computing_machin.Hlspull.Bounds.{IsNumbered}

module _ {Url : Type 0} (source : ℕ → Url) where
  -- The rounds of a pull that is to go on from the first number with the given count of failures:
  -- windows of the source that the pull has not fallen out of, and at most four failed loads in a
  -- row. The last index is the number after the last one published.
  pub data IsLive : ℕ → ℕ → List (Round Url) → ℕ → Type 0 where
    done : (n f : ℕ) → IsLive n f [] n
    retry :
        {n f l : ℕ} {r : Round Url} {rs : List (Round Url)} (e : LoadError)
        → r.loaded ≡ err e
        → is_fatal e ≡ false
        → r.load_cancelled ≡ false
        → r.sleep_cancelled ≡ false
        → suc f < max_failures
        → IsLive n (suc f) rs l
        → IsLive n f (r ∷ rs) l
    window :
        {n f l : ℕ} {r : Round Url} {rs : List (Round Url)} (m : Media Url)
        → r.loaded ≡ ok m
        → IsNumbered m
        → m.seq + length m.segments < modulus
        → m.segments ≡ slice source m.seq (length m.segments)
        → m.seq ≤ n
        → n ≤ m.seq + length m.segments
        → zero_word ≤ n
        → m.ended ≡ false
        → r.sleep_cancelled ≡ false
        → ((u : Url) → r.copy u ≡ copied)
        → IsLive (m.seq + length m.segments) 0 rs l
        → IsLive n f (r ∷ rs) l

  -- What is left of a round once its starting point is known.
  abbrev ending : Round Url → Media Url → Pull Url → ℕ → Bool → List Url → Step Url
  ending r m p start wraps rest =
      after_copy m r.sleep_cancelled
        (copy_all r.copy wraps rest (record p { failures = 0; next = start }))
