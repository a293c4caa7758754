-- ===== src/Range/Member.antt =====
-- What a range means: the addresses that it holds.
use bez_os.Prelude.{ℕ, ◌≤◌, ◌<◌}
use bez_os.Range.{Range, word}

abbrev pub Holds : Range → ℕ → Type 0
Holds r x = (r.front ≤ x) × (x < r.back)

-- A range of at least one address.
abbrev pub IsProper : Range → Type 0
IsProper r = r.front < r.back

-- `AnyRange`'s precondition and the word size.
pub record IsWord (r : Range) : Type 0 where
  pub ordered : r.front ≤ r.back
  pub fits : r.back < word

-- Every address of the second range is in the first.
abbrev pub Covers : Range → Range → Type 0
Covers r o = (r.front ≤ o.front) × (o.back ≤ r.back)
