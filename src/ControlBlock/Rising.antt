-- ===== src/ControlBlock/Rising.antt =====
-- Lists by rising address, and what a partition keeps of a list.
use bez_os.Prelude.{
  ltb, length, length-append, ℕ, ◌+◌, ◌≤◌, ◌<◌, ◌≡◌, true, ◌&&◌, ◌||◌, not, List, [], ◌∷◌, ◌++◌,
  arith,
}
use bez_os.ControlBlock.Chain.{has, has-append}
use bez_os.ControlBlock.Midway.{kept_all, moved_all}

-- Every block is below all that follow it.
abbrev pub IsRising : List ℕ → Type 0
IsRising [] = Unit
IsRising (x ∷ xs) = ((a : ℕ) → has a xs ≡ true → x < a) × IsRising xs

pub IsRising-append :
    (xs : List ℕ) (mid : ℕ) (ys : List ℕ)
    → IsRising xs
    → IsRising ys
    → ((a : ℕ) → has a xs ≡ true → a < mid)
    → ((a : ℕ) → has a ys ≡ true → mid < a)
    → IsRising (xs ++ (mid ∷ ys))
IsRising-append [] mid ys r s below above = (above, s)
IsRising-append (x ∷ xs) mid ys r s below above = (
  λ a i.
      (let bx = below x (ground arith) in
        ground (arith, has-append a xs (mid ∷ ys), r.0 a, above a)),
  IsRising-append xs mid ys r.1 s (λ a i. below a (ground arith)) above,
)

-- Which blocks the partition puts where.
pub kept_lem :
    (value : ℕ) (rest kept : List ℕ) (a : ℕ)
    → has a (kept_all value rest kept) ≡ (has a kept || (has a rest && not (ltb value a)))
kept_lem value [] kept a = ground arith
kept_lem value (x ∷ xs) kept a = ground (
  arith,
  kept_lem value xs kept a,
  kept_lem value xs (kept ++ (x ∷ [])) a,
  has-append a kept (x ∷ []),
)

pub moved_lem :
    (value : ℕ) (rest moved : List ℕ) (a : ℕ)
    → has a (moved_all value rest moved) ≡ (has a moved || (has a rest && ltb value a))
moved_lem value [] moved a = ground arith
moved_lem value (x ∷ xs) moved a =
    ground (arith, moved_lem value xs moved a, moved_lem value xs (x ∷ moved) a)

-- What a list's blocks add up to: two lists that agree for every function hold the same blocks as often.
abbrev pub sum_of : (ℕ → ℕ) → List ℕ → ℕ
sum_of g [] = 0
sum_of g (x ∷ xs) = g x + sum_of g xs

pub sum_of-append : (g : ℕ → ℕ) (xs ys : List ℕ) → sum_of g (xs ++ ys) ≡ sum_of g xs + sum_of g ys
sum_of-append g [] ys = omega arith
sum_of-append g (x ∷ xs) ys = omega (arith, sum_of-append g xs ys)

pub sum_lem :
    (g : ℕ → ℕ) (value : ℕ) (rest kept moved : List ℕ)
    → sum_of g (kept_all value rest kept) + sum_of g (moved_all value rest moved)
      ≡ sum_of g kept + sum_of g rest + sum_of g moved
sum_lem g value [] kept moved = omega arith
sum_lem g value (x ∷ xs) kept moved = ground (
  arith,
  sum_lem g value xs kept (x ∷ moved),
  sum_lem g value xs (kept ++ (x ∷ [])) moved,
  sum_of-append g kept (x ∷ []),
)

pub length-kept :
    (value : ℕ) (rest kept : List ℕ) → length (kept_all value rest kept) ≤ length kept + length rest
length-kept value [] kept = omega arith
length-kept value (x ∷ xs) kept = ground (
  arith,
  length-kept value xs kept,
  length-kept value xs (kept ++ (x ∷ [])),
  length-append {0} kept (x ∷ []),
)

pub length-moved :
    (value : ℕ) (rest moved : List ℕ)
    → length (moved_all value rest moved) ≤ length moved + length rest
length-moved value [] moved = omega arith
length-moved value (x ∷ xs) moved =
    ground (arith, length-moved value xs moved, length-moved value xs (x ∷ moved))
