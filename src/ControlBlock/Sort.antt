-- ===== src/ControlBlock/Sort.antt =====
-- The quicksort: a list that holds the same blocks, by rising address.
use bez_os.ControlBlock.Rising.{
  IsRising, sum_of, kept_lem, IsRising-append, length-kept, moved_lem, sum_of-append, length-moved,
  sum_lem,
}
use bez_os.Prelude.{
  ltb, ◌==◌, length, ℕ, zero, suc, ◌<◌, ◌≡◌, refl, ◌∙◌, ◌≢◌, true, false, ◌&&◌, not, some, List, [],
  ◌∷◌, ◌++◌, arith,
}
use bez_os.ControlBlock.{Memory, quicksort_inner, partition, join_sorted}
use bez_os.ControlBlock.Chain.{has, has-append, frame, Chain, not_null}
use bez_os.ControlBlock.Partition.{Finished, partition_loop_lem}
use bez_os.ControlBlock.Midway.{SameAt, kept_all, moved_all, first_block, Midway}
use bez_os.ControlBlock.Join.{Loose, Loose-joined, joined_same, after_sizes}

-- What the sort of a list comes to.
pub record Sorted (m : Memory) (fuel l : ℕ) (xs : List ℕ) : Type 0 where
  pub after : Memory
  pub begin : ℕ
  pub last : ℕ
  pub blocks : List ℕ
  pub comes_to : quicksort_inner fuel m l ≡ some (after, begin, last)
  pub loose : Loose after begin blocks last
  pub rising : IsRising blocks
  pub members : (a : ℕ) → has a blocks ≡ has a xs
  pub sums : (g : ℕ → ℕ) → sum_of g blocks ≡ sum_of g xs
  pub same : (a : ℕ) → a ≢ 0 → has a xs ≡ false → SameAt m after a
  pub sizes : (after.size ≡ m.size) × (after.slide ≡ m.slide)

Loose-frame :
    (m m' : Memory) (first : ℕ) (xs : List ℕ) (last : ℕ)
    → Loose m first xs last
    → ((a : ℕ) → has a xs ≡ true → SameAt m m' a)
    → Loose m' first xs last
Loose-frame m m' first xs last l same = record {
  before = l.before;
  chain = frame m m' l.before first xs last 0 l.chain same;
}

first_block-eq :
    (m : Memory) (before first : ℕ) (xs : List ℕ) (last : ℕ)
    → Chain m before first xs last 0
    → first ≡ first_block xs
first_block-eq m before first [] last c = c.0
first_block-eq m before first (x ∷ xs) last c = c.0

Midway-start :
    (m : Memory) (before x : ℕ) (rest : List ℕ) (last : ℕ)
    → Chain m before x (x ∷ rest) last 0
    → Midway m before x [] x (m.next x) rest 0 []
Midway-start m before x rest last c = record {
  end = last;
  bottom = 0;
  chain = (refl, c.1, c.2, refl, (refl, refl));
  coming = c.4;
  result_chain = (refl, refl);
  chain_apart = λ a i. ground (arith, c.3);
  coming_apart = λ a i. refl;
}

-- One level of the recursion on a list of two blocks or more.
module _ (m : Memory) (fuel before x y : ℕ) (rest : List ℕ) (last : ℕ)
    (c : Chain m before x (x ∷ y ∷ rest) last 0)
    (f : Finished m fuel x before x [] (m.next x) (y ∷ rest) 0 []) where
  abbrev lows : List ℕ
  lows = kept_all x (y ∷ rest) []

  abbrev highs : List ℕ
  highs = moved_all x (y ∷ rest) []

  Loose-lows : Loose f.after (first_block lows) lows f.last
  Loose-lows =
      let chain = f.midway.chain.4 in
      record {
        before = x;
        chain = rw (first_block-eq f.after x (f.after.next x) lows f.last chain) at chain;
      }

  Loose-highs : Loose f.after f.gt highs f.midway.bottom
  Loose-highs = record { before = 0; chain = f.midway.result_chain }

  split_lem :
      (a : ℕ)
      → (has a lows ≡ (has a (y ∷ rest) && not (ltb x a)))
        × (has a highs ≡ (has a (y ∷ rest) && ltb x a))
  split_lem a = (kept_lem x (y ∷ rest) [] a, moved_lem x (y ∷ rest) [] a)

  Loose-highs_after :
      (s : Sorted f.after fuel (first_block lows) lows) → Loose s.after f.gt highs f.midway.bottom
  Loose-highs_after s = Loose-frame f.after s.after f.gt highs f.midway.bottom Loose-highs λ a i.
      s.same a (not_null f.after 0 f.gt highs f.midway.bottom 0 a f.midway.result_chain i)
        (ground (arith, split_lem a))

  more : ((x == 0) ≡ false) × ((m.next x == 0) ≡ false)
  more = (ground (arith, c.1), ground (arith, c.4.0, c.4.1))

  Sorted-step :
      (s : Sorted f.after fuel (first_block lows) lows)
      → Sorted s.after fuel f.gt highs
      → Sorted m (suc fuel) x (x ∷ y ∷ rest)
  unfolding quicksort_inner partition
  Sorted-step s t =
      let low = Loose-frame s.after t.after s.begin s.blocks s.last s.loose (λ a i.
        t.same a (not_null s.after s.loose.before s.begin s.blocks s.last 0 a s.loose.chain i)
          (ground (arith, s.members a, split_lem a))) in
      let mid_low : has x s.blocks ≡ false = ground (arith, s.members x, split_lem x, c.3) in
      let mid_high : has x t.blocks ≡ false = ground (arith, t.members x, split_lem x, c.3) in
      let separate : (a : ℕ) → has a s.blocks ≡ true → has a t.blocks ≡ false =
        λ a i. ground (arith, s.members a, t.members a, split_lem a) in
      record {
        after = (join_sorted t.after x s.begin s.last t.begin t.last).0;
        begin = (join_sorted t.after x s.begin s.last t.begin t.last).1;
        last = (join_sorted t.after x s.begin s.last t.begin t.last).2;
        blocks = s.blocks ++ (x ∷ t.blocks);
        comes_to =
            (let (at_x, at_y) = more in rw (at_x, at_y, f.comes_to, s.comes_to, t.comes_to) refl);
        loose =
            Loose-joined t.after x s.begin s.blocks s.last t.begin t.blocks t.last low t.loose c.1
              mid_low mid_high separate;
        rising =
            IsRising-append s.blocks x t.blocks s.rising t.rising
              (λ a i. ground (arith, s.members a, split_lem a))
              (λ a i. ground (arith, t.members a, split_lem a));
        members = λ a.
            ground
              (arith, has-append a s.blocks (x ∷ t.blocks), s.members a, t.members a, split_lem a);
        sums = λ g. omega (
          arith,
          sum_of-append g s.blocks (x ∷ t.blocks),
          s.sums g,
          t.sums g,
          sum_lem g x (y ∷ rest) [] [],
        );
        same = λ a ne0 i.
            (let one = f.same a ne0 (ground arith) (ground arith) refl in
              let two = s.same a ne0 (ground (arith, split_lem a)) in
              let three = t.same a ne0 (ground (arith, split_lem a)) in
              let four =
                joined_same t.after x s.begin s.blocks s.last t.begin t.blocks t.last low t.loose
                  c.1 mid_low mid_high separate a ne0 (ground (arith, s.members a, split_lem a))
                  (ground (arith, t.members a, split_lem a)) (ground arith) in
              (four.0 ∙ three.0 ∙ two.0 ∙ one.0, four.1 ∙ three.1 ∙ two.1 ∙ one.1));
        sizes =
            (let four =
                after_sizes t.after x s.begin s.blocks s.last t.begin t.blocks t.last low t.loose
                  c.1 mid_low mid_high separate in
              (
                four.0 ∙ t.sizes.0 ∙ s.sizes.0 ∙ f.sizes.0,
                four.1 ∙ t.sizes.1 ∙ s.sizes.1 ∙ f.sizes.1,
              ));
      }

-- `QuicksortInner` of a list that ends in null comes to its end, given fuel for one level more than it
-- has blocks.
pub sort_lem :
    (fuel : ℕ) (m : Memory) (l : ℕ) (xs : List ℕ) (last : ℕ)
    → Loose m l xs last
    → length xs < fuel
    → Sorted m fuel l xs
unfolding quicksort_inner
sort_lem zero m l xs last loose lt = absurd (omega arith)
sort_lem (suc fuel) m l [] last loose lt = record {
  after = m;
  begin = 0;
  last = 0;
  blocks = [];
  comes_to = rw loose.chain.0;
  loose = record { before = 0; chain = (refl, refl) };
  rising = tt;
  members = λ a. refl;
  sums = λ g. refl;
  same = λ a ne0 i. (refl, refl);
  sizes = (refl, refl);
}
sort_lem (suc fuel) m l (x ∷ []) last loose lt =
    let c = loose.chain in
    let at_x : (x == 0) ≡ false = ground (arith, c.1) in
    rw c.0 (record {
      after = m;
      begin = x;
      last = x;
      blocks = x ∷ [];
      comes_to = rw (at_x, c.4.0);
      loose = record { before = loose.before; chain = (refl, c.1, c.2, refl, (c.4.0, refl)) };
      rising = (λ a i. absurd (ground arith), tt);
      members = λ a. refl;
      sums = λ g. refl;
      same = λ a ne0 i. (refl, refl);
      sizes = (refl, refl);
    })
sort_lem (suc fuel) m l (x ∷ y ∷ rest) last loose lt =
    let c = rw loose.chain.0 at loose.chain in
    let start : Midway m loose.before x [] x (m.next x) (y ∷ rest) 0 [] =
      Midway-start m loose.before x (y ∷ rest) last c in
    let f =
      partition_loop_lem m fuel x loose.before x [] x (m.next x) (y ∷ rest) 0 [] (omega arith)
        start in
    let s =
      sort_lem fuel f.after (first_block (kept_all x (y ∷ rest) [])) (kept_all x (y ∷ rest) [])
        f.last (Loose-lows m fuel loose.before x y rest last c f)
        (omega (arith, length-kept x (y ∷ rest) [])) in
    let t =
      sort_lem fuel s.after f.gt (moved_all x (y ∷ rest) []) f.midway.bottom
        (Loose-highs_after m fuel loose.before x y rest last c f s)
        (omega (arith, length-moved x (y ∷ rest) [])) in
    rw loose.chain.0 (Sorted-step m fuel loose.before x y rest last c f s t)
