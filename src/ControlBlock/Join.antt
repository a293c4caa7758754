-- ===== src/ControlBlock/Join.antt =====
-- The end of `QuicksortInner`: two lists and the block between them become one list.
use bez_os.ControlBlock.Midway.{SameAt}
use bez_os.Prelude.{
  ◌==◌, if◌then◌else◌, ℕ, ◌≡◌, refl, ◌≢◌, ◌⊎◌, inl, inr, true, false, ◌&&◌, not, List, [], ◌∷◌,
  ◌++◌, arith,
}
use bez_os.ControlBlock.{Memory, join_sorted}
use bez_os.ControlBlock.Chain.{
  has, Chain, has-last, not_null, relink, Chain-append, null-or_has, end_next,
}

-- A list that ends in null, wherever its first block's predecessor points.
pub record Loose (m : Memory) (first : ℕ) (xs : List ℕ) (last : ℕ) : Type 0 where
  pub before : ℕ
  pub chain : Chain m before first xs last 0

module _ (m : Memory) (mid lte : ℕ) (lows : List ℕ) (lte_end gt : ℕ) (highs : List ℕ) (gt_end : ℕ)
    (low : Loose m lte lows lte_end) (high : Loose m gt highs gt_end) (ne : mid ≢ 0)
    (mid_low : has mid lows ≡ false) (mid_high : has mid highs ≡ false)
    (separate : (a : ℕ) → has a lows ≡ true → has a highs ≡ false) where
  abbrev joined : Memory × ℕ × ℕ
  joined = join_sorted m mid lte lte_end gt gt_end

  abbrev after : Memory
  after = joined.0

  -- What the three cases of either list leave at a block.
  after_next :
      (a : ℕ)
      → after.next a
        ≡ (if not (lte == 0) && a == lte_end then mid else if a == mid then gt else m.next a)
  unfolding join_sorted
  after_next a = ground arith

  after_prev :
      (a : ℕ)
      → gt ≢ mid
      → a ≢ 0
      → after.prev a ≡ (
          if a == mid then (if lte == 0 then 0 else lte_end) else if a == gt then mid else m.prev a)
  unfolding join_sorted
  after_prev a gt_ne ne0 = ground arith

  pub after_sizes : (after.size ≡ m.size) × (after.slide ≡ m.slide)
  unfolding join_sorted
  after_sizes = ground arith

  -- A block of either list is neither the middle one nor an end of the other list.
  of_high : (a : ℕ) → has a highs ≡ true → (a ≢ mid) × (a ≢ 0) × ((lte ≡ 0) ⊎ (a ≢ lte_end))
  of_high a i = (
    ground arith,
    not_null m high.before gt highs gt_end 0 a high.chain i,
    apart_from lows low.chain (λ b j. j),
  )
    where
      apart_from :
          (ys : List ℕ)
          → Chain m low.before lte ys lte_end 0
          → ((b : ℕ) → has b ys ≡ true → has b lows ≡ true)
          → (lte ≡ 0) ⊎ (a ≢ lte_end)
      apart_from [] c sub = inl c.0
      apart_from (y ∷ ys) c sub =
          let s = separate lte_end (sub lte_end (has-last m low.before lte y ys lte_end 0 c)) in
          inr (ground arith)

  of_low : (a : ℕ) → has a lows ≡ true → (a ≢ mid) × (a ≢ 0) × (a ≢ gt)
  of_low a i =
      let ne0 = not_null m low.before lte lows lte_end 0 a low.chain i in
      (
        ground arith,
        ne0,
        ground (arith, separate a i, null-or_has m high.before gt highs gt_end high.chain),
      )

  mid_of : (gt ≢ mid) × ((lte ≡ 0) ⊎ (lte_end ≢ mid))
  mid_of = (
    ground (arith, null-or_has m high.before gt highs gt_end high.chain),
    apart_from lows low.chain (λ b j. j),
  )
    where
      apart_from :
          (ys : List ℕ)
          → Chain m low.before lte ys lte_end 0
          → ((b : ℕ) → has b ys ≡ true → has b lows ≡ true)
          → (lte ≡ 0) ⊎ (lte_end ≢ mid)
      apart_from [] c sub = inl c.0
      apart_from (y ∷ ys) c sub =
          let s = sub lte_end (has-last m low.before lte y ys lte_end 0 c) in inr (ground arith)

  -- The list behind the middle block, and the list from it on.
  behind_mid : Chain after mid (after.next mid) highs joined.2 0
  unfolding join_sorted
  behind_mid = rw next_mid (go highs high.chain (λ b j. j))
    where
      next_mid : after.next mid ≡ gt
      next_mid = ground (arith, after_next mid, mid_of)

      go :
          (ys : List ℕ)
          → Chain m high.before gt ys gt_end 0
          → ((b : ℕ) → has b ys ≡ true → has b highs ≡ true)
          → Chain after mid gt ys joined.2 0
      go [] c sub = (c.0, ground arith)
      go (y ∷ ys) c sub =
          let there : joined.2 ≡ gt_end = ground arith in
          rw there (
            relink m after high.before mid gt y ys gt_end 0 0 c
              (λ a i out. (let h = of_high a (sub a i) in ground (arith, after_next a)))
              (λ a i out.
                (let h = of_high a (sub a i) in ground (arith, after_prev a mid_of.0 h.1)))
              (let h = of_high gt_end (sub gt_end (has-last m high.before gt y ys gt_end 0 c)) in
                ground (arith, after_next gt_end, end_next m high.before gt y ys gt_end 0 c))
              (let h = of_high gt (sub gt (ground arith)) in
                ground (arith, after_prev gt mid_of.0 h.1)))

  from_mid :
      (p : ℕ) → p ≡ (if lte == 0 then 0 else lte_end) → Chain after p mid (mid ∷ highs) joined.2 0
  from_mid p e = (refl, ne, ground (arith, after_prev mid mid_of.0 ne), mid_high, behind_mid)

  pub Loose-joined : Loose after joined.1 (lows ++ (mid ∷ highs)) joined.2
  unfolding join_sorted
  Loose-joined = go lows low.chain (λ b j. j)
    where
      go :
          (ys : List ℕ)
          → Chain m low.before lte ys lte_end 0
          → ((b : ℕ) → has b ys ≡ true → has b lows ≡ true)
          → Loose after joined.1 (ys ++ (mid ∷ highs)) joined.2
      go [] c sub = record {
        before = 0;
        chain = (let begin : joined.1 ≡ mid = ground arith in rw begin (from_mid 0 (ground arith)));
      }
      go (y ∷ ys) c sub = record {
        before = low.before;
        chain =
            (let begin : joined.1 ≡ lte = ground arith in
              rw begin (
                Chain-append after low.before lte (y ∷ ys) lte_end mid (mid ∷ highs) joined.2 0
                  (relink m after low.before low.before lte y ys lte_end 0 mid c
                    (λ a i out. (let h = of_low a (sub a i) in ground (arith, after_next a)))
                    (λ a i out.
                      (let h = of_low a (sub a i) in ground (arith, after_prev a mid_of.0 h.1)))
                    (ground (arith, after_next lte_end))
                    (let h = of_low lte (sub lte (ground arith)) in
                      ground (arith, after_prev lte mid_of.0 h.1)))
                  (from_mid lte_end (ground arith))
                  (λ a i. (let h = of_low a (sub a i) in ground (arith, separate a (sub a i))))));
      }

  -- Other blocks keep their pointers.
  pub joined_same :
      (a : ℕ) → a ≢ 0 → has a lows ≡ false → has a highs ≡ false → a ≢ mid → SameAt m after a
  joined_same a ne0 i j n = (
    (let ends = apart_from lows low.chain (λ b k. k) in ground (arith, after_next a)),
    (let begins = null-or_has m high.before gt highs gt_end high.chain in
        ground (arith, after_prev a mid_of.0 ne0)),
  )
    where
      apart_from :
          (ys : List ℕ)
          → Chain m low.before lte ys lte_end 0
          → ((b : ℕ) → has b ys ≡ true → has b lows ≡ true)
          → (lte ≡ 0) ⊎ (a ≢ lte_end)
      apart_from [] c sub = inl c.0
      apart_from (y ∷ ys) c sub =
          let s = sub lte_end (has-last m low.before lte y ys lte_end 0 c) in inr (ground arith)
