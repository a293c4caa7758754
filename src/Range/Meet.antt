-- ===== src/Range/Meet.antt =====
-- The tests and combinations of two ranges, against the addresses that both hold.
use bez_os.Prelude.{ℕ, ◌-◌, ◌≤◌, ◌<◌, max, ◌≡◌, ◌↔◌, ◌⊎◌, true, List, [], ◌∷◌, arith}
use bez_os.Range.{Range, overlaps, intersects, intersection, contains}
use bez_os.Range.Member.{Holds, IsProper, Covers}
use bez_os.Range.Pair

-- `contains` of an address is membership, and `contains` of a proper range is inclusion.
pub contains_iff :
    (r o : Range) → IsProper o → (contains r o ≡ true) ↔ ((x : ℕ) → Holds o x → Holds r x)
unfolding contains
contains_iff r o p = (
  λ h x m. ground arith,
  λ h. let lo = h o.front (omega arith) in let hi = h (o.back - 1) (omega arith) in ground arith,
)

-- For proper ranges `intersects` says that some address is in both, except where the argument
-- stretches past this range on both sides: then it answers no although they share an address.
pub intersects_iff :
    (r o : Range)
    → IsProper r
    → IsProper o
    → (intersects r o ≡ true)
      ↔ (((r.front < o.back) × (o.front < r.back)) × ¬ ((o.front < r.front) × (r.back < o.back)))
unfolding intersects
intersects_iff r o p q = ground arith

-- The address that two ranges share, if each starts before the other ends.
pub shared_iff :
    (r o : Range)
    → IsProper r
    → IsProper o
    → ((r.front < o.back) × (o.front < r.back)) ↔ ((x : ℕ) × Holds r x × Holds o x)
shared_iff r o p q = (λ h. (max r.front o.front, omega arith, omega arith), λ h. omega arith)

-- For proper ranges `overlaps` says exactly: the argument starts inside this range and reaches its
-- end, or starts at its front, or ends inside it or exactly at its front having started before.
pub overlaps_iff :
    (r o : Range)
    → IsProper r
    → IsProper o
    → (overlaps r o ≡ true) ↔ (
        ((r.front ≤ o.front) × (o.front < r.back) × (r.back ≤ o.back))
        ⊎ (o.front ≡ r.front)
        ⊎ ((o.front < r.front) × (r.front ≤ o.back) × (o.back < r.back)))
unfolding overlaps
overlaps_iff r o p q = ground arith

-- An address is in `intersection` exactly if it is in both ranges, for the method and the function.
intersection_iff :
    (r o : Range) (x : ℕ)
    → (Holds (intersection r o) x ↔ (Holds r x × Holds o x))
      × (Holds (Pair.intersection r o) x ↔ (Holds r x × Holds o x))
unfolding intersection Pair.intersection
intersection_iff r o x = ground arith

-- Proper ranges are an `interval` exactly if neither ends before the other starts.
pub interval_iff :
    (a b : Range)
    → IsProper a
    → IsProper b
    → (Pair.interval a b ≡ true) ↔ ((a.front ≤ b.back) × (b.front ≤ a.back))
unfolding Pair.interval
interval_iff a b p q = ground arith

-- `merge` covers both ranges, and every range that covers both covers it.
pub merge_least :
    (a b c : Range)
    → (Covers (Pair.merge a b) a × Covers (Pair.merge a b) b)
      × (Covers c a → Covers c b → Covers c (Pair.merge a b))
unfolding Pair.merge
merge_least a b c = ground arith

merge-Covers : (c a b : Range) → Covers c (Pair.merge a b) ↔ (Covers c a × Covers c b)
unfolding Pair.merge
merge-Covers c a b = ground arith

-- For an `interval` of proper ranges `merge` adds no address between the two.
pub merge_exact :
    (a b : Range) (x : ℕ)
    → IsProper a
    → IsProper b
    → Pair.interval a b ≡ true
    → Holds (Pair.merge a b) x ↔ (Holds a x ⊎ Holds b x)
unfolding Pair.merge
merge_exact a b x p q h = ground (arith, (interval_iff a b p q).0 h)

-- A range covers every one of some ranges.
abbrev pub CoversAll : Range → List Range → Type 0
CoversAll c [] = Unit
CoversAll c (r ∷ rs) = Covers c r × CoversAll c rs

merge_all_least :
    (c a : Range) (rs : List Range) → Covers c (Pair.merge_all a rs) ↔ (Covers c a × CoversAll c rs)
unfolding Pair.merge_all
merge_all_least c a [] = (λ h. (h, tt), λ h. h.0)
merge_all_least c a (r ∷ rs) =
    ground (arith, merge_all_least c (Pair.merge a r) rs, merge-Covers c a r)

-- `combinedInterval` is the narrowest cover: a range covers it exactly if it covers every one of the
-- given ranges.
combined_interval_least :
    (c r : Range) (rs : List Range)
    → Covers c (Pair.combined_interval (r ∷ rs)) ↔ CoversAll c (r ∷ rs)
unfolding Pair.combined_interval
combined_interval_least c r rs = merge_all_least c r rs
