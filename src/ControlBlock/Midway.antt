-- ===== src/ControlBlock/Midway.antt =====
-- `Partition` of a list: what each round of its loop keeps.
use bez_os.Prelude.{
  ltb, ◌==◌, if◌then◌else◌, ℕ, ◌≡◌, refl, ◌≢◌, ◌⊎◌, inl, inr, true, false, List, [], ◌∷◌, ◌++◌,
  arith,
}
use bez_os.ControlBlock.{Memory, move_to_result}
use bez_os.ControlBlock.Chain.{
  has, Chain, has-append, Chain-append, has-last, not_null, null-or_has, relink, end_next,
}

-- The blocks that stay behind `kept`, and those that end up in front of `moved`.
abbrev pub kept_all : ℕ → List ℕ → List ℕ → List ℕ
kept_all value [] kept = kept
kept_all value (x ∷ xs) kept =
    if ltb value x then kept_all value xs kept else kept_all value xs (kept ++ (x ∷ []))

abbrev pub moved_all : ℕ → List ℕ → List ℕ → List ℕ
moved_all value [] moved = moved
moved_all value (x ∷ xs) moved =
    if ltb value x then moved_all value xs (x ∷ moved) else moved_all value xs moved

-- The first block of a list, null if there is none.
abbrev pub first_block : List ℕ → ℕ
first_block [] = 0
first_block (x ∷ xs) = x

-- The pointers of a block are as they were.
abbrev pub SameAt : Memory → Memory → ℕ → Type 0
SameAt m m' a = (m'.next a ≡ m.next a) × (m'.prev a ≡ m.prev a)

-- Where the loop stands: behind `kept`, with `rest` to come and `moved` in `result`.
pub record Midway (m : Memory) (before first : ℕ) (kept : List ℕ) (last l : ℕ) (rest : List ℕ)
    (result : ℕ) (moved : List ℕ) : Type 0 where
  pub end : ℕ
  pub bottom : ℕ
  pub chain : Chain m before first (first ∷ kept) last l
  pub coming : Chain m last l rest end 0
  pub result_chain : Chain m 0 result moved bottom 0
  pub chain_apart :
      (a : ℕ) → has a (first ∷ kept) ≡ true → (has a rest ≡ false) × (has a moved ≡ false)
  pub coming_apart : (a : ℕ) → has a rest ≡ true → has a moved ≡ false

-- Keeping a block.
pub Midway-keep :
    (m : Memory) (before first : ℕ) (kept : List ℕ) (last l : ℕ) (rest : List ℕ) (result : ℕ)
    (moved : List ℕ)
    → Midway m before first kept last l (l ∷ rest) result moved
    → Midway m before first (kept ++ (l ∷ [])) l (m.next l) rest result moved
Midway-keep m before first kept last l rest result moved w = record {
  end = w.end;
  bottom = w.bottom;
  chain =
      Chain-append m before first (first ∷ kept) last l (l ∷ []) l (m.next l) w.chain
        (refl, w.coming.1, w.coming.2, refl, (refl, refl))
        (λ a i. ground (arith, w.chain_apart a i));
  coming = w.coming.4;
  result_chain = w.result_chain;
  chain_apart = λ a i.
      ground (arith, has-append a kept (l ∷ []), w.chain_apart a, w.coming.3, w.coming_apart a);
  coming_apart = λ a i. w.coming_apart a (ground arith);
}

-- Moving a block: what the pointers are afterwards.
module _ (m : Memory) (before first : ℕ) (kept : List ℕ) (last l : ℕ) (rest : List ℕ) (result : ℕ)
    (moved : List ℕ) (w : Midway m before first kept last l (l ∷ rest) result moved) where
  abbrev m' : Memory
  m' = move_to_result m l result

  pub loop_apart :
      (l ≢ 0)
      × (last ≢ 0)
      × (last ≢ l)
      × (m.prev l ≡ last)
      × ((m.next l ≡ 0)
          ⊎ ((has (m.next l) rest ≡ true)
              × (m.next l ≢ l)
              × (m.next l ≢ last)
              × (m.next l ≢ result)))
      × ((result ≡ 0) ⊎ ((has result moved ≡ true) × (result ≢ l) × (result ≢ last)))
  loop_apart =
      let inside = has-last m before first first kept last l w.chain in
      let c = w.chain_apart last inside in
      (
        w.coming.1,
        not_null m before first (first ∷ kept) last l last w.chain inside,
        ground arith,
        w.coming.2,
        elim (null-or_has m l (m.next l) rest w.end w.coming.4) [
          | inl e ↦ inl e
          | inr i ↦ inr (
            i,
            ground (arith, w.coming.3),
            ground arith,
            ground (
              arith,
              w.coming_apart (m.next l),
              null-or_has m 0 result moved w.bottom w.result_chain,
              not_null m l (m.next l) rest w.end 0 (m.next l) w.coming.4,
            ),
          )
        ],
        elim (null-or_has m 0 result moved w.bottom w.result_chain) [
          | inl e ↦ inl e
          | inr i ↦ inr (i, ground (arith, w.coming_apart l), ground (arith, w.chain_apart last))
        ],
      )

  pub moved_next :
      (a : ℕ) → m'.next a ≡ (if a == l then result else if a == last then m.next l else m.next a)
  unfolding move_to_result
  moved_next a = ground (arith, loop_apart)

  pub moved_prev :
      (a : ℕ)
      → a ≢ 0
      → m'.prev a ≡ (
          if a == l then 0 else if a == result then l else if a == m.next l then last else m.prev a)
  unfolding move_to_result
  moved_prev a ne = ground (arith, loop_apart)

  -- The blocks before it are none of those that the move is about.
  other : (a : ℕ) → has a (first ∷ kept) ≡ true → (a ≢ l) × (a ≢ result) × (a ≢ m.next l) × (a ≢ 0)
  other a i =
      let (out, out') = w.chain_apart a i in
      let ne = not_null m before first (first ∷ kept) last l a w.chain i in
      (ground arith, ground (arith, loop_apart), ground (arith, loop_apart), ne)

  later : (a : ℕ) → has a rest ≡ true → (a ≢ l) × (a ≢ last) × (a ≢ result) × (a ≢ 0)
  later a i =
      let inside = has-last m before first first kept last l w.chain in
      let out = w.chain_apart last inside in
      let out' = w.coming_apart a (ground arith) in
      let ne = not_null m l (m.next l) rest w.end 0 a w.coming.4 i in
      (ground (arith, w.coming.3), ground arith, ground (arith, loop_apart), ne)

  earlier : (a : ℕ) → has a moved ≡ true → (a ≢ l) × (a ≢ last) × (a ≢ m.next l) × (a ≢ 0)
  earlier a i =
      let inside = has-last m before first first kept last l w.chain in
      let out = w.chain_apart last inside in
      let out' = w.coming_apart l (ground arith) in
      let ne = not_null m 0 result moved w.bottom 0 a w.result_chain i in
      (ground arith, ground arith, ground (arith, loop_apart, w.coming_apart a), ne)

  -- What comes after the block, behind its new neighbour.
  coming_moved : (e : ℕ) × Chain m' last (m.next l) rest e 0
  coming_moved = after rest w.coming.4 (λ a i. i)
    where
      after :
          (ys : List ℕ)
          → Chain m l (m.next l) ys w.end 0
          → ((a : ℕ) → has a ys ≡ true → has a rest ≡ true)
          → (e : ℕ) × Chain m' last (m.next l) ys e 0
      after [] c sub = (last, (c.0, refl))
      after (y ∷ ys) c sub = (
        w.end,
        relink m m' l last (m.next l) y ys w.end 0 0 c
            (λ a i ne.
              (let (l_ne, last_ne, r_ne, ne0) = later a (sub a i) in ground (arith, moved_next a)))
            (λ a i ne.
              (let (l_ne, last_ne, r_ne, ne0) = later a (sub a i) in
                ground (arith, moved_prev a ne0)))
            (let (l_ne, last_ne, r_ne, ne0) =
                later w.end (sub w.end (has-last m l (m.next l) y ys w.end 0 c)) in
              ground (arith, moved_next w.end, end_next m l (m.next l) y ys w.end 0 c))
            (let (l_ne, last_ne, r_ne, ne0) = later (m.next l) (sub (m.next l) (ground arith)) in
              ground (arith, moved_prev (m.next l) ne0)),
      )

  -- The list of moved blocks, behind the block.
  result_moved : (b : ℕ) × Chain m' l (m'.next l) moved b 0
  result_moved = rw next_l (behind moved w.result_chain (λ a i. i))
    where
      next_l : m'.next l ≡ result
      next_l = ground (arith, moved_next l)

      behind :
          (ys : List ℕ)
          → Chain m 0 result ys w.bottom 0
          → ((a : ℕ) → has a ys ≡ true → has a moved ≡ true)
          → (b : ℕ) × Chain m' l result ys b 0
      behind [] c sub = (l, (c.0, refl))
      behind (y ∷ ys) c sub = (
        w.bottom,
        relink m m' 0 l result y ys w.bottom 0 0 c
            (λ a i ne.
              (let (l_ne, last_ne, n_ne, ne0) = earlier a (sub a i) in
                ground (arith, moved_next a)))
            (λ a i ne.
              (let (l_ne, last_ne, n_ne, ne0) = earlier a (sub a i) in
                ground (arith, moved_prev a ne0)))
            (let (l_ne, last_ne, n_ne, ne0) =
                earlier w.bottom (sub w.bottom (has-last m 0 result y ys w.bottom 0 c)) in
              ground (arith, moved_next w.bottom, end_next m 0 result y ys w.bottom 0 c))
            (let (l_ne, last_ne, n_ne, ne0) = earlier result (sub result (ground arith)) in
              ground (arith, moved_prev result ne0)),
      )

  pub Midway-move : Midway m' before first kept last (m.next l) rest l (l ∷ moved)
  Midway-move = record {
    end = coming_moved.0;
    bottom = result_moved.0;
    chain =
        relink m m' before before first first kept last l (m.next l) w.chain
          (λ a i ne. ground (arith, moved_next a, other a i))
          (λ a i ne. (let (l_ne, r_ne, n_ne, ne0) = other a i in ground (arith, moved_prev a ne0)))
          (ground (arith, moved_next last, loop_apart))
          (let (l_ne, r_ne, n_ne, ne0) = other first (ground arith) in
            ground (arith, moved_prev first ne0, w.chain.2));
    coming = coming_moved.1;
    result_chain = (
      refl,
      w.coming.1,
      ground (arith, moved_prev l w.coming.1),
      w.coming_apart l (ground arith),
      result_moved.1,
    );
    chain_apart = λ a i. ground (arith, w.chain_apart a);
    coming_apart = λ a i. ground (arith, w.coming.3, w.coming_apart a);
  }
