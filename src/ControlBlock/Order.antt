-- ===== src/ControlBlock/Order.antt =====
-- `sortBlocks`: from any block of a list the whole list is put in order.
use bez_os.ControlBlock.Midway.{SameAt}
use bez_os.ControlBlock.Sort.{Sorted, sort_lem}
use bez_os.ControlBlock.Rising.{IsRising, sum_of}
use bez_os.ControlBlock.Join.{Loose}
use bez_os.Prelude.{
  ◌==◌, if◌then◌else◌, Bool-cases, length, ℕ, suc, ◌+◌, ◌-◌, ◌≤◌, ◌<◌, ◌≡◌, sym, ap, ap₂, ◌∙◌, ◌≢◌,
  ◌⊎◌, inl, inr, true, false, some, List, [], ◌∷◌, arith,
}
use bez_os.ControlBlock.{Memory, head, sort_blocks, set_prev, quicksort, set_next}
use bez_os.ControlBlock.Chain.{has, Chain, has-last, not_null, relink}

-- The blocks of a list with nothing before or behind it.
pub record IsList (m : Memory) (first : ℕ) (xs : List ℕ) : Type 0 where
  pub last : ℕ
  pub chain : Chain m 0 first xs last 0

prev_first :
    (m : Memory) (before first : ℕ) (xs : List ℕ) (last after b : ℕ)
    → Chain m before first xs last after
    → has b xs ≡ true
    → m.prev first ≡ before
prev_first m before first [] last after b c i = absurd (ground arith)
prev_first m before first (x ∷ xs) last after b c i = ground arith

one_back : (m : Memory) (b p fuel : ℕ) → m.prev b ≡ p → p ≢ 0 → head (suc fuel) m b ≡ head fuel m p
unfolding head
one_back m b p fuel e ne = ground arith

-- `head` walks from a block back to the first: so many steps.
head_walk :
    (m : Memory) (before first : ℕ) (xs : List ℕ) (last after b : ℕ)
    → Chain m before first xs last after
    → has b xs ≡ true
    → (k : ℕ) × (k < length xs) × ((fuel : ℕ) → head (fuel + k) m b ≡ head fuel m first)
unfolding head
head_walk m before first [] last after b c i = absurd (ground arith)
head_walk m before first (x ∷ xs) last after b c i = elim (Bool-cases (b == x)) [
  | inl here ↦ (
    0,
    omega arith,
    λ fuel.
        (let none_left : fuel + 0 ≡ fuel = omega arith in
          let same : b ≡ first = ground (arith, c.0) in ap₂ (λ n a. head n m a) none_left same),
  )
  | inr later ↦
      let (k, lt, walk) = head_walk m x (m.next x) xs last after b c.4 (ground arith) in
      (
        suc k,
        omega arith,
        λ fuel.
            ap (λ n. head n m b) (let e : fuel + suc k ≡ suc fuel + k = omega arith in e)
            ∙ walk (suc fuel)
            ∙ one_back m (m.next x) x fuel
                (prev_first m x (m.next x) xs last after b c.4 (ground arith)) c.1
            ∙ ap (head fuel m) (sym c.0),
      )
]

pub head_lem :
    (m : Memory) (fuel first : ℕ) (xs : List ℕ) (b : ℕ)
    → IsList m first xs
    → has b xs ≡ true
    → length xs ≤ fuel
    → head fuel m b ≡ some first
unfolding head
head_lem m fuel first xs b l i le =
    let (k, lt, walk) = head_walk m 0 first xs l.last 0 b l.chain i in
    let at_first : m.prev first ≡ 0 = prev_first m 0 first xs l.last 0 b l.chain i in
    let spare : fuel ≡ suc (fuel - suc k) + k = omega arith in
    ap (λ n. head n m b) spare ∙ walk (suc (fuel - suc k)) ∙ stop (fuel - suc k) at_first
  where
    stop : (n : ℕ) → m.prev first ≡ 0 → head (suc n) m first ≡ some first
    stop n e = rw e

-- What `sortBlocks` comes to.
pub record Ordered (m : Memory) (fuel block : ℕ) (xs : List ℕ) : Type 0 where
  pub after : Memory
  pub first : ℕ
  pub blocks : List ℕ
  pub comes_to : sort_blocks fuel m block ≡ some after
  pub list : IsList after first blocks
  pub rising : IsRising blocks
  pub members : (a : ℕ) → has a blocks ≡ has a xs
  pub sums : (g : ℕ → ℕ) → sum_of g blocks ≡ sum_of g xs
  pub sizes : (after.size ≡ m.size) × (after.slide ≡ m.slide)
  pub same : (a : ℕ) → (a ≡ 0) ⊎ ((has a xs ≡ true) ⊎ SameAt m after a)

-- The ends of the sorted list are closed.
module _ (m : Memory) (begin x : ℕ) (xs : List ℕ) (last : ℕ) (l : Loose m begin (x ∷ xs) last) where
  abbrev closed : Memory
  closed =
      let m1 = if begin == 0 then m else set_prev m begin 0 in
      if last == 0 then m1 else set_next m1 last 0

  closed-IsList : IsList closed begin (x ∷ xs)
  closed-IsList =
      let end = has-last m l.before begin x xs last 0 l.chain in
      let last_ne = not_null m l.before begin (x ∷ xs) last 0 last l.chain end in
      let begin_ne : begin ≢ 0 = ground (arith, l.chain.0, l.chain.1) in
      record {
        last = last;
        chain =
            relink m closed l.before 0 begin x xs last 0 0 l.chain (λ a i ne. ground arith)
              (λ a i ne. ground arith) (ground arith) (ground arith);
      }

  closed_same : (a : ℕ) → has a (x ∷ xs) ≡ false → SameAt m closed a
  closed_same a out =
      let end = has-last m l.before begin x xs last 0 l.chain in
      let first : begin ≡ x = l.chain.0 in (ground arith, ground arith)

  closed_sizes : (closed.size ≡ m.size) × (closed.slide ≡ m.slide)
  closed_sizes = ground arith

-- `sortBlocks` from any block of a list that begins and ends in null puts the blocks of the list in
-- the order of their addresses, changes no size or slide and no pointer of another block. It comes to
-- its end, given one level of recursion more than there are blocks.
pub sort_blocks_lem :
    (m : Memory) (fuel first x : ℕ) (xs : List ℕ) (block : ℕ)
    → IsList m first (x ∷ xs)
    → has block (x ∷ xs) ≡ true
    → length (x ∷ xs) < fuel
    → Ordered m fuel block (x ∷ xs)
unfolding sort_blocks quicksort
sort_blocks_lem m fuel first x xs block l i lt =
    let found = head_lem m fuel first (x ∷ xs) block l i (omega arith) in
    let s = sort_lem fuel m first (x ∷ xs) l.last (record { before = 0; chain = l.chain }) lt in
    close found s s.blocks s.loose s.rising s.members s.sums
  where
    close :
        head fuel m block ≡ some first
        → (s : Sorted m fuel first (x ∷ xs)) → (ys : List ℕ) → Loose s.after s.begin ys s.last
        → IsRising ys
        → ((a : ℕ) → has a ys ≡ has a (x ∷ xs))
        → ((g : ℕ → ℕ) → sum_of g ys ≡ sum_of g (x ∷ xs))
        → Ordered m fuel block (x ∷ xs)
    close found s [] loose rising members sums = absurd (ground (arith, members x))
    close found s (y ∷ ys) loose rising members sums = record {
      after = closed s.after s.begin y ys s.last loose;
      first = s.begin;
      blocks = y ∷ ys;
      comes_to = rw (found, s.comes_to);
      list = closed-IsList s.after s.begin y ys s.last loose;
      rising = rising;
      members = members;
      sums = sums;
      sizes = ground (arith, s.sizes);
      same = λ a. elim (Bool-cases (a == 0)) [
        | inl null ↦ inl (ground arith)
        | inr there ↦ elim (Bool-cases (has a (x ∷ xs))) [
          | inl i ↦ inr (inl i)
          | inr out ↦
              let first = s.same a (ground arith) out in
              let second = closed_same s.after s.begin y ys s.last loose a (members a ∙ out) in
              inr (inr (second.0 ∙ first.0, second.1 ∙ first.1))
        ]
      ];
    }
