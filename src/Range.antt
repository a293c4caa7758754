-- ===== src/Range.antt =====
-- sources/kernel/include/memory/range.hpp: the methods of AnyRange, a span [front, back) of addresses.
-- An address is a number below 2^64, and sums wrap. A failed KM_ASSERT halts the kernel: `none`.
pub mod Tests
pub mod Pair
pub mod Member
pub mod Meet
pub mod Align
pub mod Part
use bez_os.Prelude.{
  ltb, leb, ◌==◌, if◌then◌else◌, xor, ℕ, ◌+◌, ◌-◌, ◌%◌, ◌^◌, Bool, true, false, ◌&&◌, ◌||◌, not,
  Option, none, some,
}

pub record Range : Type 0 where
  pub front : ℕ
  pub back : ℕ

abbrev pub word : ℕ
word = 2 ^ 64

-- `uintptr_t` sums and differences.
abbrev pub add_word : ℕ → ℕ → ℕ
add_word a b = (a + b) % word

abbrev pub sub_word : ℕ → ℕ → ℕ
sub_word a b = (a + word - b) % word

abbrev pub range : ℕ → ℕ → Range
range front back = record { front = front; back = back }

-- KM_ASSERT
abbrev pub assert_then {ℓ} : {A : Type ℓ} → Bool → A → Option A
assert_then c a = if c then some a else none

unfoldable pub size : Range → ℕ
size r = sub_word r.back r.front

unfoldable pub is_empty : Range → Bool
is_empty r = r.front == r.back

unfoldable pub is_valid : Range → Bool
is_valid r = leb r.front r.back

-- `contains` of an address
unfoldable pub contains_address : Range → ℕ → Bool
contains_address r addr = leb r.front addr && ltb addr r.back

unfoldable pub contains : Range → Range → Bool
contains r o = leb r.front o.front && leb o.back r.back

unfoldable pub overlaps : Range → Range → Bool
unfolding contains_address
overlaps r o =
    if o.front == r.front && leb o.back r.back
    then true
    else if o.back == r.back && leb r.front o.front
    then true
    else xor (contains_address r o.front) (contains_address r o.back)

unfoldable pub intersects : Range → Range → Bool
unfolding contains contains_address
intersects r o =
    if o.front == r.back || o.back == r.front
    then false
    else contains r o || contains_address r o.front || contains_address r o.back || o.back == r.back

unfoldable pub is_before : Range → ℕ → Bool
is_before r address = leb r.back address

-- `isAfter` of an address
unfoldable pub is_after_address : Range → ℕ → Bool
is_after_address r address = leb address r.front

-- `isAfter` of a range
unfoldable pub is_after : Range → Range → Bool
is_after r o = leb o.back r.front

pub offset_by : Range → ℕ → Range
offset_by r offset = range (add_word r.front offset) (add_word r.back offset)

pub with_extra_head : Range → ℕ → Range
with_extra_head r n = range (sub_word r.front n) r.back

pub with_extra_tail : Range → ℕ → Range
with_extra_tail r n = range r.front (add_word r.back n)

pub with_extra_bounds : Range → ℕ → ℕ → Range
with_extra_bounds r extra_head extra_tail =
    range (sub_word r.front extra_head) (add_word r.back extra_tail)

pub subrange : Range → ℕ → ℕ → Option Range
subrange r offset n =
    let new_front = add_word r.front offset in
    let new_back = add_word new_front n in
    assert_then (leb new_back r.back) (range new_front new_back)

-- `subrange` without a size
pub subrange_from : Range → ℕ → Option Range
subrange_from r offset =
    let new_front = add_word r.front offset in
    assert_then (leb new_front r.back) (range new_front r.back)

pub first : Range → ℕ → Option Range
unfolding size
first r new_size = assert_then (leb new_size (size r)) (range r.front (add_word r.front new_size))

pub last : Range → ℕ → Option Range
unfolding size
last r new_size = assert_then (leb new_size (size r)) (range (sub_word r.back new_size) r.back)

-- std::min and std::max
abbrev pub least : ℕ → ℕ → ℕ
least a b = if ltb b a then b else a

abbrev pub greatest : ℕ → ℕ → ℕ
greatest a b = if ltb a b then b else a

unfoldable pub merged_with : Range → Range → Range
merged_with r o = range (least r.front o.front) (greatest r.back o.back)

unfoldable pub starts_with : Range → Range → Bool
starts_with r o = r.front == o.front && leb o.back r.back

unfoldable pub ends_with : Range → Range → Bool
ends_with r o = r.back == o.back && leb r.front o.front

unfoldable pub cut : Range → Range → Range
unfolding overlaps
cut r o =
    if not (overlaps r o)
    then r
    else if leb o.front r.front
    then range (least r.back o.back) (greatest r.back o.back)
    else if leb r.back o.back
    then range (least r.front o.front) (greatest r.front o.front)
    else r

unfoldable pub intersection : Range → Range → Range
intersection r o =
    let new_front = greatest r.front o.front in
    let new_back = least r.back o.back in
    if leb new_back new_front then range new_front new_front else range new_front new_back

unfoldable pub of_size : ℕ → ℕ → Range
of_size front n = range front (add_word front n)
