-- ===== src/Range/Pair.antt =====
-- sources/kernel/include/memory/range.hpp: the free functions over ranges.
use bez_os.Prelude.{
  leb, ◌==◌, if◌then◌else◌, ℕ, ◌+◌, ◌-◌, ◌*◌, ◌/◌, ◌%◌, Bool, ◌||◌, Option, List, [], ◌∷◌,
}
use bez_os.Range
use bez_os.Range.{Range, range, word, least, greatest, assert_then}

-- sources/common/include/common/util/util.hpp: multiples of an alignment, in wrapping arithmetic.
-- The code assumes that the multiple is positive.
unfoldable pub roundup : ℕ → ℕ → ℕ
roundup value multiple = (value + multiple + word - 1) % word / multiple * multiple % word

unfoldable pub rounddown : ℕ → ℕ → ℕ
rounddown value multiple = value / multiple * multiple

-- A value-initialised AnyRange.
abbrev pub no_range : Range
no_range = range 0 0

unfoldable pub intersection : Range → Range → Range
intersection a b =
    let front = greatest a.front b.front in
    let back = least a.back b.back in if leb back front then no_range else range front back

unfoldable pub merge : Range → Range → Range
merge a b = range (least a.front b.front) (greatest a.back b.back)

unfoldable pub outer_adjacent : Range → Range → Bool
outer_adjacent a b = a.back == b.front || b.back == a.front

unfoldable pub inner_adjacent : Range → Range → Bool
inner_adjacent a b = a.front == b.front || a.back == b.back

unfoldable pub border_contains : Range → Range → Bool
unfolding Range.contains
border_contains a b =
    if a.front == b.front
    then leb b.back a.back
    else if a.back == b.back
    then leb a.front b.front
    else Range.contains a b

unfoldable pub contiguous : Range → Range → Bool
unfolding outer_adjacent Range.overlaps
contiguous a b = outer_adjacent a b || Range.overlaps a b

unfoldable pub interval : Range → Range → Bool
unfolding outer_adjacent Range.overlaps Range.contains
interval a b = outer_adjacent a b || Range.overlaps a b || Range.contains a b || Range.contains b a

unfoldable pub merge_all : Range → List Range → Range
unfolding merge
merge_all result [] = result
merge_all result (r ∷ rs) = merge_all (merge result r) rs

unfoldable pub combined_interval : List Range → Range
unfolding merge_all
combined_interval [] = no_range
combined_interval (r ∷ rs) = merge_all r rs

unfoldable pub aligned : Range → ℕ → Range
unfolding roundup rounddown
aligned r align =
    let front = roundup r.front align in
    let back = rounddown r.back align in if leb back front then no_range else range front back

unfoldable pub aligned_out : Range → ℕ → Range
unfolding roundup rounddown
aligned_out r align = range (rounddown r.front align) (roundup r.back align)

-- `split` at an address
unfoldable pub split_at : Range → ℕ → Option (Range × Range)
unfolding Range.contains_address
split_at r midpoint =
    assert_then (Range.contains_address r midpoint) (range r.front midpoint, range midpoint r.back)

-- `split` at a range
unfoldable pub split : Range → Range → Option (Range × Range)
unfolding Range.contains
split r o = assert_then (Range.contains r o) (range r.front o.front, range o.back r.back)
