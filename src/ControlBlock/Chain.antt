-- ===== src/ControlBlock/Chain.antt =====
-- The blocks that the pointers lead through.
use bez_os.Prelude.{
  ◌==◌, Bool-cases, ℕ, ◌≡◌, refl, ◌∙◌, ◌≢◌, ◌⊎◌, inl, inr, Bool, true, false, ◌||◌, List, [], ◌∷◌,
  ◌++◌, arith,
}
use bez_os.ControlBlock.{Memory}

-- Whether a block is one of a list.
abbrev pub has : ℕ → List ℕ → Bool
has a [] = false
has a (x ∷ xs) = (a == x) || has a xs

-- From `first`, whose predecessor is `before`, the pointers lead both ways through distinct blocks to
-- `last`, whose successor is `after`.
abbrev pub Chain : Memory → (before first : ℕ) → List ℕ → (last after : ℕ) → Type 0
Chain m before first [] last after = (first ≡ after) × (before ≡ last)
Chain m before first (x ∷ xs) last after =
    (first ≡ x)
    × (x ≢ 0)
    × (m.prev x ≡ before)
    × (has x xs ≡ false)
    × Chain m x (m.next x) xs last after

pub has-last :
    (m : Memory) (before first x : ℕ) (xs : List ℕ) (last after : ℕ)
    → Chain m before first (x ∷ xs) last after
    → has last (x ∷ xs) ≡ true
has-last m before first x [] last after c = ground arith
has-last m before first x (y ∷ ys) last after c =
    ground (arith, has-last m x (m.next x) y ys last after c.4)

-- A memory that agrees on a list of blocks but for its ends has the list with new neighbours.
pub relink :
    (m m' : Memory) (before before' first x : ℕ) (xs : List ℕ) (last after after' : ℕ)
    → Chain m before first (x ∷ xs) last after
    → ((a : ℕ) → has a (x ∷ xs) ≡ true → a ≢ last → m'.next a ≡ m.next a)
    → ((a : ℕ) → has a (x ∷ xs) ≡ true → a ≢ first → m'.prev a ≡ m.prev a)
    → m'.next last ≡ after'
    → m'.prev first ≡ before'
    → Chain m' before' first (x ∷ xs) last after'
relink m m' before before' first x [] last after after' c nexts prevs en ep = ground arith
relink m m' before before' first x (y ∷ ys) last after after' c nexts prevs en ep =
    let inside = has-last m x (m.next x) y ys last after c.4 in
    let next : m'.next x ≡ m.next x = nexts x (ground arith) (ground arith) in
    (
      c.0,
      c.1,
      ground arith,
      c.3,
      rw next (
          relink m m' x x (m.next x) y ys last after after' c.4
            (λ a i ne. nexts a (ground arith) ne) (λ a i ne. prevs a (ground arith) (ground arith))
            en (ground (arith, prevs y))),
    )

-- A memory that agrees on a list of blocks has the same list.
pub frame :
    (m m' : Memory) (before first : ℕ) (xs : List ℕ) (last after : ℕ)
    → Chain m before first xs last after
    → ((a : ℕ) → has a xs ≡ true → (m'.next a ≡ m.next a) × (m'.prev a ≡ m.prev a))
    → Chain m' before first xs last after
frame m m' before first [] last after c same = c
frame m m' before first (x ∷ xs) last after c same =
    let (next, prev) = same x (ground arith) in
    (
      c.0,
      c.1,
      prev ∙ c.2,
      c.3,
      rw next (frame m m' x (m.next x) xs last after c.4 (λ a i. same a (ground arith))),
    )

pub has-append : (a : ℕ) (xs ys : List ℕ) → has a (xs ++ ys) ≡ (has a xs || has a ys)
has-append a [] ys = refl
has-append a (x ∷ xs) ys = ground (arith, has-append a xs ys)

-- Two lists that follow one another are one.
pub Chain-append :
    (m : Memory) (before first : ℕ) (xs : List ℕ) (mid between : ℕ) (ys : List ℕ) (last after : ℕ)
    → Chain m before first xs mid between
    → Chain m mid between ys last after
    → ((a : ℕ) → has a xs ≡ true → has a ys ≡ false)
    → Chain m before first (xs ++ ys) last after
Chain-append m before first [] mid between ys last after c d apart = rw (c.0, c.1) d
Chain-append m before first (x ∷ xs) mid between ys last after c d apart = (
  c.0,
  c.1,
  c.2,
  rw has-append (ground (arith, apart x)),
  Chain-append m x (m.next x) xs mid between ys last after c.4 d (λ a i. apart a (ground arith)),
)

pub not_null :
    (m : Memory) (before first : ℕ) (xs : List ℕ) (last after a : ℕ)
    → Chain m before first xs last after
    → has a xs ≡ true
    → a ≢ 0
not_null m before first [] last after a c i = absurd (ground arith)
not_null m before first (x ∷ xs) last after a c i = elim (Bool-cases (a == x)) [
  | inl here ↦ ground (arith, c.1)
  | inr later ↦ not_null m x (m.next x) xs last after a c.4 (ground arith)
]

-- A list that ends in null is empty, or begins with one of its blocks.
pub null-or_has :
    (m : Memory) (before first : ℕ) (xs : List ℕ) (last : ℕ)
    → Chain m before first xs last 0
    → (first ≡ 0) ⊎ (has first xs ≡ true)
null-or_has m before first [] last c = inl c.0
null-or_has m before first (x ∷ xs) last c = inr (ground arith)

-- The last block's successor.
pub end_next :
    (m : Memory) (before first x : ℕ) (xs : List ℕ) (last after : ℕ)
    → Chain m before first (x ∷ xs) last after
    → m.next last ≡ after
end_next m before first x [] last after c = ground arith
end_next m before first x (y ∷ ys) last after c = end_next m x (m.next x) y ys last after c.4
