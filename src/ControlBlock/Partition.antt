-- ===== src/ControlBlock/Partition.antt =====
-- `Partition`: the blocks above the first one go to a list of their own.
use bez_os.ControlBlock.Midway.{
  Midway, first_block, Midway-move, kept_all, loop_apart, Midway-keep, moved_all, SameAt,
  moved_next, moved_prev,
}
use bez_os.Prelude.{
  ltb, ◌==◌, if◌then◌else◌, Bool-cases, length, ℕ, zero, suc, ◌<◌, ◌≡◌, refl, ◌∙◌, ◌≢◌, inl, inr,
  true, false, some, List, [], ◌∷◌, ◌++◌, arith,
}
use bez_os.ControlBlock.{Memory, move_to_result, partition_loop, partition_step}
use bez_os.ControlBlock.Chain.{has, Chain, has-append, has-last}

-- What the rest of the loop comes to.
pub record Finished (m : Memory) (fuel value before first : ℕ) (kept : List ℕ) (l : ℕ)
    (rest : List ℕ) (result : ℕ) (moved : List ℕ) : Type 0 where
  pub after : Memory
  pub gt : ℕ
  pub last : ℕ
  pub comes_to :
      partition_loop fuel m value l result (first_block kept)
      ≡ some (after, first_block (kept_all value rest kept), gt)
  pub midway :
      Midway after before first (kept_all value rest kept) last 0 [] gt (moved_all value rest moved)
  pub same :
      (a : ℕ)
      → a ≢ 0
      → has a (first ∷ kept) ≡ false
      → has a rest ≡ false
      → has a moved ≡ false
      → SameAt m after a
  pub sizes : (after.size ≡ m.size) × (after.slide ≡ m.slide)

move_to_result_sizes :
    (m : Memory) (l result : ℕ)
    → ((move_to_result m l result).size ≡ m.size) × ((move_to_result m l result).slide ≡ m.slide)
unfolding move_to_result
move_to_result_sizes m l result = ground arith

first_block-append :
    (m : Memory) (before first : ℕ) (kept : List ℕ) (last after x : ℕ)
    → Chain m before first (first ∷ kept) last after
    → (if first_block kept == 0 then x else first_block kept) ≡ first_block (kept ++ (x ∷ []))
first_block-append m before first [] last after x c = refl
first_block-append m before first (y ∷ ys) last after x c = ground (arith, c.4.1)

module _ (m : Memory) (fuel value before first : ℕ) (kept : List ℕ) (last x : ℕ) (xs : List ℕ)
    (result : ℕ) (moved : List ℕ)
    (w : Midway m before first kept last x (x ∷ xs) result moved) where
  not_end : (x == 0) ≡ false
  not_end = ground (arith, w.coming.1)

  -- A round that moves the block, and one that keeps it.
  Finished-move :
      ltb value x ≡ true
      → Finished
          (move_to_result m x result)
          fuel
          value
          before
          first
          kept
          (m.next x)
          xs
          x
          (x ∷ moved)
      → Finished m (suc fuel) value before first kept x (x ∷ xs) result moved
  unfolding partition_loop partition_step
  Finished-move above f = record {
    after = f.after;
    gt = f.gt;
    last = f.last;
    comes_to = rw (not_end, above) f.comes_to;
    midway = rw above f.midway;
    same = λ a ne i j k.
        (let there = f.same a ne i (ground arith) (ground arith) in
          let inside = has-last m before first first kept last x w.chain in
          let parts = loop_apart m before first kept last x xs result moved w in
          (
            there.0 ∙ ground (arith, moved_next m before first kept last x xs result moved w a),
            there.1 ∙ ground (arith, moved_prev m before first kept last x xs result moved w a ne),
          ));
    sizes = (let old = move_to_result_sizes m x result in (f.sizes.0 ∙ old.0, f.sizes.1 ∙ old.1));
  }

  Finished-keep :
      ltb value x ≡ false
      → Finished m fuel value before first (kept ++ (x ∷ [])) (m.next x) xs result moved
      → Finished m (suc fuel) value before first kept x (x ∷ xs) result moved
  unfolding partition_loop partition_step
  Finished-keep below f = record {
    after = f.after;
    gt = f.gt;
    last = f.last;
    comes_to =
        rw (not_end, below, first_block-append m before first kept last x x w.chain) f.comes_to;
    midway = rw below f.midway;
    same = λ a ne i j k. f.same a ne (ground (arith, has-append a kept (x ∷ []))) (ground arith) k;
    sizes = f.sizes;
  }

pub partition_loop_lem :
    (m : Memory) (fuel value before first : ℕ) (kept : List ℕ) (last l : ℕ) (rest : List ℕ)
    (result : ℕ) (moved : List ℕ)
    → length rest < fuel
    → Midway m before first kept last l rest result moved
    → Finished m fuel value before first kept l rest result moved
unfolding partition_loop partition_step
partition_loop_lem m zero value before first kept last l rest result moved lt w =
    absurd (omega arith)
partition_loop_lem m (suc fuel) value before first kept last l [] result moved lt w =
    let e = w.coming.0 in
    record {
      after = m;
      gt = result;
      last = last;
      comes_to = rw e;
      midway = rw e at w;
      same = λ a ne i j k. (refl, refl);
      sizes = (refl, refl);
    }
partition_loop_lem m (suc fuel) value before first kept last l (x ∷ xs) result moved lt w =
    let e : l ≡ x = w.coming.0 in
    let w' : Midway m before first kept last x (x ∷ xs) result moved = rw e at w in
    rw e (elim (Bool-cases (ltb value x)) [
      | inl above ↦ Finished-move m fuel value before first kept last x xs result moved w' above (
          partition_loop_lem (move_to_result m x result) fuel value before first kept last
            (m.next x) xs x (x ∷ moved) (omega arith)
            (Midway-move m before first kept last x xs result moved w'))
      | inr below ↦ Finished-keep m fuel value before first kept last x xs result moved w' below (
          partition_loop_lem m fuel value before first (kept ++ (x ∷ [])) x (m.next x) xs result
            moved (omega arith) (Midway-keep m before first kept last x xs result moved w'))
    ])
