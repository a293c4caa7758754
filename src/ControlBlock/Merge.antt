-- ===== src/ControlBlock/Merge.antt =====
-- `mergeAdjacentBlocks`: the list afterwards stands for the merged extents.
use bez_os.Prelude.{
  ◌==◌, if◌then◌else◌, Bool-cases, length, ℕ, zero, suc, ◌+◌, ◌<◌, ◌≡◌, refl, sym, ap, ap₂, ◌∙◌,
  ◌≢◌, inl, inr, true, false, ◌&&◌, some, List, [], ◌∷◌, arith,
}
use mathlib.Core.Path.{subst}
use bez_os.ControlBlock.{Memory, absorb, merge_step, merge_adjacent_blocks}
use bez_os.ControlBlock.Chain.{has, Chain, null-or_has, relink, not_null, has-last, end_next}
use bez_os.ControlBlock.Extents.{
  extent, extents, merged, AllFit, adjacent, grow, extents-same, AllFit-grow,
}
use bez_os.Range.{add_word}

-- What the loop from a block on comes to.
pub record Merged (m : Memory) (fuel before block : ℕ) (xs : List ℕ) : Type 0 where
  pub after : Memory
  pub rest : List ℕ
  pub last : ℕ
  pub comes_to : merge_adjacent_blocks fuel m block ≡ some after
  pub chain : Chain after before block (block ∷ rest) last 0
  pub stands_for : extents after (block ∷ rest) ≡ merged (extent m block) (extents m xs)
  pub within : (a : ℕ) → has a rest ≡ true → has a xs ≡ true
  pub same :
      (a : ℕ)
      → a ≢ 0
      → has a (block ∷ xs) ≡ false
      → (after.next a ≡ m.next a) × (after.prev a ≡ m.prev a) × (extent after a ≡ extent m a)

-- The test for adjacency does not wrap where the extents fit.
adjacent_lem :
    (m : Memory) (x y : ℕ) (ys : List ℕ)
    → AllFit (extents m (x ∷ y ∷ ys))
    → (add_word x (m.size x) == y && m.slide y == m.slide x) ≡ adjacent (extent m x) (extent m y)
adjacent_lem m x y ys fit = ground arith

module _ (m : Memory) (fuel before x y : ℕ) (ys : List ℕ) (last : ℕ)
    (c : Chain m before x (x ∷ y ∷ ys) last 0) (fit : AllFit (extents m (x ∷ y ∷ ys))) where
  ends : ((x == 0) ≡ false) × ((m.next x == 0) ≡ false) × (m.next x ≡ y) × (x ≢ y)
  ends = (ground (arith, c.1), ground (arith, c.4.0, c.4.1), c.4.0, ground (arith, c.3))

  Merged-skip :
      adjacent (extent m x) (extent m y) ≡ false
      → Merged m fuel x y ys
      → Merged m (suc fuel) before x (y ∷ ys)
  unfolding merge_adjacent_blocks merge_step
  Merged-skip apart r =
      let here = r.same x c.1 c.3 in
      let out : has x r.rest ≡ false = ground (arith, r.within x, c.3) in
      let has_not : has x (y ∷ r.rest) ≡ false = ground (arith, ends.3) in
      record {
        after = r.after;
        rest = y ∷ r.rest;
        last = r.last;
        comes_to = rw (ends.0, ends.1, ends.2, adjacent_lem m x y ys fit, apart) r.comes_to;
        chain = (refl, c.1, here.1 ∙ c.2, has_not, rw (here.0, ends.2) r.chain);
        stands_for = rw (apart, here.2) (ap (λ es. extent m x ∷ es) r.stands_for);
        within = λ a i. ground (arith, r.within a);
        same = λ a ne0 i. r.same a ne0 (ground arith);
      }

  -- The memory once the first block has taken over the second.
  abbrev m1 : Memory
  m1 = absorb m x y

  m1_next : (a : ℕ) → m1.next a ≡ (if a == x then m.next y else m.next a)
  unfolding absorb
  m1_next a = ground (arith, ends)

  m1_prev : (a : ℕ) → a ≢ 0 → m1.prev a ≡ (if a == m.next y then x else m.prev a)
  unfolding absorb
  m1_prev a ne = ground (arith, ends)

  m1_size : (a : ℕ) → m1.size a ≡ (if a == x then add_word (m.size x) (m.size y) else m.size a)
  unfolding absorb
  m1_size a = ground (arith, ends)

  m1_slide : m1.slide ≡ m.slide
  unfolding absorb
  m1_slide = ground arith

  Chain-absorb : (l : ℕ) × Chain m1 before x (x ∷ ys) l 0
  Chain-absorb =
      let at_x : m1.next x ≡ m.next y = ground (arith, m1_next x) in
      let behind = rw (sym at_x) at (go ys c.4.4 (λ a i. i)) in
      (
        behind.0,
        (refl, c.1, ground (arith, m1_prev x c.1, beyond, c.2), ground (arith, c.3), behind.1),
      )
    where
      beyond : x ≢ m.next y
      beyond = ground (arith, null-or_has m y (m.next y) ys last c.4.4, c.3, c.1)

      go :
          (zs : List ℕ)
          → Chain m y (m.next y) zs last 0
          → ((a : ℕ) → has a zs ≡ true → has a ys ≡ true)
          → (l : ℕ) × Chain m1 x (m.next y) zs l 0
      go [] d sub = (x, (d.0, refl))
      go (z ∷ zs) d sub = (
        last,
        relink m m1 y x (m.next y) z zs last 0 0 d
            (λ a i out. (let h = sub a i in ground (arith, m1_next a, c.3)))
            (λ a i out. ground (arith, m1_prev a (not_null m y (m.next y) (z ∷ zs) last 0 a d i)))
            (let h = sub last (has-last m y (m.next y) z zs last 0 d) in
              ground (arith, m1_next last, c.3, end_next m y (m.next y) z zs last 0 d))
            (ground (
              arith,
              m1_prev (m.next y)
                  (not_null m y (m.next y) (z ∷ zs) last 0 (m.next y) d (ground arith)),
            )),
      )

  extents-absorb :
      adjacent (extent m x) (extent m y) ≡ true
      → (extent m1 x ≡ grow (extent m x) (extent m y)) × (extents m1 ys ≡ extents m ys)
  extents-absorb joins = (
    (let size : m1.size x ≡ m.size x + m.size y = ground (arith, m1_size x) in rw (size, m1_slide)),
    extents-same m m1 ys λ a i. (ground (arith, m1_size a, c.3), ap (λ s. s a) m1_slide),
  )

  Merged-join :
      adjacent (extent m x) (extent m y) ≡ true
      → Merged m1 fuel before x ys
      → Merged m (suc fuel) before x (y ∷ ys)
  unfolding merge_adjacent_blocks merge_step
  Merged-join joins r =
      let (first, others) = extents-absorb joins in
      record {
        after = r.after;
        rest = r.rest;
        last = r.last;
        comes_to = rw (ends.0, ends.1, ends.2, adjacent_lem m x y ys fit, joins) r.comes_to;
        chain = r.chain;
        stands_for = rw joins (rw (first, others) at r.stands_for);
        within = λ a i. ground (arith, r.within a);
        same = λ a ne0 i.
            (let there = r.same a ne0 (ground arith) in
              let beyond = null-or_has m y (m.next y) ys last c.4.4 in
              let size : m1.size a ≡ m.size a = ground (arith, m1_size a) in
              (
                there.0 ∙ ground (arith, m1_next a),
                there.1 ∙ ground (arith, m1_prev a ne0),
                there.2 ∙ rw (size, m1_slide),
              ));
      }

-- The loop comes to its end, given a round for each block, and leaves a list that stands for the merged
-- extents.
pub merge_lem :
    (fuel : ℕ) (m : Memory) (before x : ℕ) (xs : List ℕ) (last : ℕ)
    → Chain m before x (x ∷ xs) last 0
    → AllFit (extents m (x ∷ xs))
    → length xs < fuel
    → Merged m fuel before x xs
unfolding merge_adjacent_blocks
merge_lem zero m before x xs last c fit lt = absurd (omega arith)
merge_lem (suc fuel) m before x [] last c fit lt =
    let at_x : (x == 0) ≡ false = ground (arith, c.1) in
    record {
      after = m;
      rest = [];
      last = x;
      comes_to = rw (at_x, c.4.0);
      chain = (refl, c.1, c.2, refl, (c.4.0, refl));
      stands_for = refl;
      within = λ a i. i;
      same = λ a ne0 i. (refl, refl, refl);
    }
merge_lem (suc fuel) m before x (y ∷ ys) last c fit lt =
    elim (Bool-cases (adjacent (extent m x) (extent m y))) [
      | inl joins ↦
          let (l, chain) = Chain-absorb m fuel before x y ys last c fit in
          let (first, others) = extents-absorb m fuel before x y ys last c fit joins in
          let fit' : AllFit (extents (absorb m x y) (x ∷ ys)) =
            subst AllFit (sym (ap₂ ◌∷◌ first others))
              (AllFit-grow (extent m x) (extent m y) (extents m ys) joins fit) in
          Merged-join m fuel before x y ys last c fit joins
            (merge_lem fuel (absorb m x y) before x ys l chain fit' (omega arith))
      | inr apart ↦
          let d = c.4 in
          Merged-skip m fuel before x y ys last c fit apart
            (merge_lem fuel m x y ys last (refl, d.1, d.2, d.3, d.4) fit.3 (omega arith))
    ]
