-- ===== src/Range/Part.antt =====
-- The operations that take a part of a range: `subrange`, `first`, `last`, `cut`, `split`.
use bez_os.Prelude.{
  ltb, leb, Bool-cases, ℕ, ◌+◌, ◌-◌, ◌≤◌, ◌<◌, ◌≡◌, refl, ◌↔◌, ◌⊎◌, inl, inr, ◌&&◌, none, some,
  arith,
}
use bez_os.Range.{Range, range, word, size, subrange, first, last, cut, offset_by}
use bez_os.Range.Member.{Holds, IsWord, IsProper, Covers}
use bez_os.Range.Pair.{split, split_at}

-- `size` is the number of addresses.
pub size-eq-sub : {r : Range} → IsWord r → size r ≡ r.back - r.front
unfolding size
size-eq-sub v = omega arith

-- `split` at an address that the range holds gives two well-formed ranges, the second not empty,
-- and puts each address of the range in exactly the one that its side of the midpoint says. At any
-- other address it halts.
pub split_at_partitions :
    (r : Range) (midpoint x : ℕ)
    → (Holds r midpoint
        × (lo : Range) × (hi : Range) × (split_at r midpoint ≡ some (lo, hi))
        × (Holds lo x ↔ (Holds r x × (x < midpoint)))
        × (Holds hi x ↔ (Holds r x × (midpoint ≤ x))))
      ⊎ ((¬ Holds r midpoint) × (split_at r midpoint ≡ none))
unfolding split_at
split_at_partitions r midpoint x = elim (Bool-cases (leb r.front midpoint && ltb midpoint r.back)) [
  | inl inside ↦ inl (
    ground arith,
    range r.front midpoint,
    range midpoint r.back,
    ground arith,
    ground arith,
    ground arith,
  )
  | inr outside ↦ inr (ground arith, ground arith)
]

-- `split` at a range inside leaves the addresses before it and those after it, and otherwise halts.
split_removes :
    (r o : Range) (x : ℕ)
    → o.front ≤ o.back
    → (Covers r o
        × (lo : Range) × (hi : Range) × (split r o ≡ some (lo, hi))
        × ((Holds lo x ⊎ Holds o x ⊎ Holds hi x) ↔ Holds r x)
        × (¬ (Holds lo x × Holds o x))
        × (¬ (Holds hi x × Holds o x)))
      ⊎ ((¬ Covers r o) × (split r o ≡ none))
unfolding split
split_removes r o x v = elim (Bool-cases (leb r.front o.front && leb o.back r.back)) [
  | inl inside ↦ inl (
    ground arith,
    range r.front o.front,
    range o.back r.back,
    ground arith,
    ground arith,
    ground arith,
    ground arith,
  )
  | inr outside ↦ inr (ground arith, ground arith)
]

-- Cutting off a proper range that reaches the front of this one and ends inside, or starts inside
-- and reaches its end, leaves exactly the addresses that the other does not hold.
cut_removes :
    (r o : Range) (x : ℕ)
    → IsProper r
    → IsProper o
    → ((o.front ≤ r.front) × (o.back < r.back)) ⊎ ((r.front < o.front) × (r.back ≤ o.back))
    → Holds (cut r o) x ↔ (Holds r x × ¬ Holds o x)
unfolding cut
cut_removes r o x p q s = ground arith

-- A range that starts where this one does and ends later is "cut" to the part of it past the end,
-- none of whose addresses this range holds.
cut_escapes :
    (r o : Range) (x : ℕ)
    → IsProper r
    → o.front ≡ r.front
    → r.back < o.back
    → (cut r o ≡ range r.back o.back) × (Holds (cut r o) x → ¬ Holds r x)
unfolding cut
cut_escapes r o x p e h = ground arith

-- `subrange` gives the asked number of addresses from the asked offset, all in the range, or halts:
-- for an offset and size that do not wrap, it halts exactly if they reach past the end.
pub subrange_lem :
    (r : Range) (offset n : ℕ)
    → r.front + offset + n < word
    → ((r.front + offset + n ≤ r.back)
        × (s : Range) × (subrange r offset n ≡ some s)
        × (s.front ≡ r.front + offset)
        × (s.back ≡ s.front + n)
        × Covers r s)
      ⊎ ((r.back < r.front + offset + n) × (subrange r offset n ≡ none))
unfolding subrange
subrange_lem r offset n h = elim (Bool-cases (leb (r.front + offset + n) r.back)) [
  | inl inside ↦ inl (
    ground arith,
    range (r.front + offset) (r.front + offset + n),
    ground arith,
    refl,
    refl,
    ground arith,
  )
  | inr outside ↦ inr (ground arith, ground arith)
]

-- `first` of n addresses and `last` of the m others are the two parts of a range of n + m, and for a
-- number that reaches past the range's end both halt.
pub first-last :
    (r : Range) (n m k : ℕ)
    → IsWord r
    → r.front + (n + m) ≡ r.back
    → r.back < r.front + k
    → (first r n ≡ some (range r.front (r.front + n)))
      × (last r m ≡ some (range (r.front + n) r.back))
      × (first r k ≡ none)
      × (last r k ≡ none)
unfolding first last
first-last r n m k v e h = (ground arith, ground arith, ground arith, ground arith)

-- `offsetBy` moves every address of a range by the offset, if the end does not wrap.
pub offset_by_moves :
    (r : Range) (offset x : ℕ)
    → r.back + offset < word
    → r.front ≤ r.back
    → (Holds (offset_by r offset) (x + offset) ↔ Holds r x) × (size (offset_by r offset) ≡ size r)
unfolding offset_by size
offset_by_moves r offset x h v = ground arith
