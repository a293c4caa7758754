-- ===== src/Range/Align.antt =====
-- `aligned` and `alignedOut`: the widest aligned range inside, and the narrowest outside.
use bez_os.Range.Member.{Covers, IsProper}
use bez_os.Prelude.{
  leb, Bool-cases, ℕ, suc, ◌+◌, ◌-◌, ◌*◌, ◌/◌, ◌%◌, ◌≤◌, ◌<◌, ◌≡◌, refl, ◌↔◌, ◌⊎◌, inl, inr, arith,
}
use native.Mathlib.Nat.{
  zero-mod, div-lt_iff_lt-mul, mod-eq_of_lt, mod-lt, div-mul-le_self, div-add-mod',
}
use bez_os.Range.{range, word, Range}
use bez_os.Range.Pair.{aligned, aligned_out, no_range, roundup, rounddown}

-- `rounddown` gives the greatest multiple that is not above the value.
pub rounddown_greatest :
    (value m k : ℕ)
    → 0 < m
    → (rounddown value m % m ≡ 0)
      × (rounddown value m ≤ value)
      × (value < rounddown value m + m)
      × (k * m ≤ value → k * m ≤ rounddown value m)
unfolding rounddown
rounddown_greatest value m k h = (grind arith, grind arith, grind arith, λ le. grind arith)

-- The wrapping arithmetic does not show while the value and the multiple fit in a word.
roundup-eq : (value m : ℕ) → 0 < m → value + m ≤ word → roundup value m ≡ (value + m - 1) / m * m
unfolding roundup
roundup-eq value m h fits =
    let inner : (value + m + word - 1) % word ≡ value + m - 1 = omega arith in
    rw inner (mod-eq_of_lt (omega (arith, div-mul-le_self (value + m - 1) m)))

-- `roundup` gives the least multiple that is not below the value, as long as the sum does not wrap.
pub roundup_least :
    (value m k : ℕ)
    → 0 < m
    → value + m ≤ word
    → (roundup value m % m ≡ 0)
      × (value ≤ roundup value m)
      × (roundup value m < value + m)
      × (value ≤ k * m → roundup value m ≤ k * m)
roundup_least value m k h fits = rw (roundup-eq value m h fits) (
  grind arith,
  omega (arith, div-add-mod' (value + m - 1) m, mod-lt (value + m - 1) h),
  omega (arith, div-mul-le_self (value + m - 1) m),
  λ le. at_most le,
)
  where
    at_most : value ≤ k * m → (value + m - 1) / m * m ≤ k * m
    at_most le =
        let q : (value + m - 1) / m < suc k = (div-lt_iff_lt-mul h).1 (grind arith) in grind arith

mul-lt-mul : {i j k : ℕ} → i < j → 0 < k → i * k < j * k
mul-lt-mul lt h = grind arith

-- `alignedOut` gives the narrowest range of aligned ends that covers a range, if the sum of its back and
-- the alignment, which is not 0, does not wrap.
aligned_out_least :
    (r : Range) (align i j : ℕ)
    → 0 < align
    → r.back + align ≤ word
    → ((aligned_out r align).front % align ≡ 0)
      × ((aligned_out r align).back % align ≡ 0)
      × Covers (aligned_out r align) r
      × (Covers (range (i * align) (j * align)) r
          ↔ Covers (range (i * align) (j * align)) (aligned_out r align))
unfolding aligned_out
aligned_out_least r align i j h fits =
    ground (arith, rounddown_greatest r.front align i h, roundup_least r.back align j h fits)

-- `aligned` gives the null range, or a proper range of aligned ends inside the given one. Every proper
-- range of aligned ends is in the given range exactly if it is in the result. The range's front and the
-- alignment, which is not 0, may not wrap in a sum.
aligned_greatest :
    (r : Range) (align i j : ℕ)
    → 0 < align
    → r.front + align ≤ word
    → i < j
    → ((aligned r align).front % align ≡ 0)
      × ((aligned r align).back % align ≡ 0)
      × ((aligned r align ≡ no_range) ⊎ (Covers r (aligned r align) × IsProper (aligned r align)))
      × (Covers r (range (i * align) (j * align))
          ↔ Covers (aligned r align) (range (i * align) (j * align)))
unfolding aligned
aligned_greatest r align i j h fits lt =
    let lo = roundup_least r.front align i h fits in
    let hi = rounddown_greatest r.back align j h in
    elim (Bool-cases (leb (rounddown r.back align) (roundup r.front align))) [
      | inl none_left ↦ rw none_left (
        zero-mod align,
        zero-mod align,
        inl refl,
        (let gap : i * align < j * align = mul-lt-mul lt h in ground (arith, lo, hi)),
      )
      | inr some_left ↦ rw some_left (lo.0, hi.0, ground (arith, lo, hi), ground (arith, lo, hi))
    ]
