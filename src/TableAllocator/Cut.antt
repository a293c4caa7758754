-- ===== src/TableAllocator/Cut.antt =====
-- The first block of a free list without its last part, and the list without its first block.
use bez_os.ControlBlock.Spaced.{fresh_lem, IsDisjoint, inside}
use bez_os.ControlBlock.Chain.{Chain, relink, end_next, has, frame, not_null}
use bez_os.ControlBlock.Order.{IsList}
use bez_os.TableAllocator.Free.{IsFreeList}
use bez_os.ControlBlock.Extents.{Extent, extents, extent, extents-same, AllFit, covered, total}
use bez_os.Prelude.{
  ltb, ◌==◌, if◌then◌else◌, Bool-cases, ℕ, ◌+◌, ◌-◌, ◌<◌, ◌≡◌, refl, sym, ap, ◌∙◌, ◌≢◌, ◌⊎◌, inl,
  inr, true, false, ◌&&◌, ◌||◌, Option, none, some, List, [], ◌∷◌, arith,
}
use mathlib.Core.Path.{subst}
use bez_os.TableAllocator.{
  split_memory, PageTableAllocator, Memory, set_prev, remove_block, add_word,
}

-- The first extent gives its end, or itself as a whole; none where it is too small.
abbrev pub take_end : ℕ → List Extent → Option (Extent × List Extent)
take_end n [] = none
take_end n (e ∷ es) =
    if ltb e.size n
    then none
    else if e.size == n
    then some (e, es)
    else some (
      record { start = e.start + (e.size - n); size = n; slide = e.slide },
      record e { size = e.size - n } ∷ es,
    )

module _ (a : PageTableAllocator) (x : ℕ) (xs : List ℕ) (size : ℕ)
    (free : IsFreeList a.memory a.front (x ∷ xs)) (some_size : 0 < size) where
  abbrev m : Memory
  m = a.memory

  pub at_front : a.front ≡ x
  at_front = free.list.chain.0

  pub found : ((a.front == 0) ≡ false) × (m.prev a.front ≡ 0)
  found = let c = free.list.chain in (ground (arith, c.0, c.1), ap m.prev c.0 ∙ c.2)

  -- Without the first block the list begins with the second.
  abbrev pub popped : Memory
  popped = if m.next x == 0 then m else set_prev m (m.next x) 0

  popped_next : popped.next ≡ m.next
  popped_next = ground arith

  pub popped_size : popped.size ≡ m.size
  popped_size = ground arith

  pub popped_slide : popped.slide ≡ m.slide
  popped_slide = ground arith

  extents-popped : (ys : List ℕ) → extents popped ys ≡ extents m ys
  extents-popped ys = extents-same m popped ys (λ b i. ground arith)

  IsList-popped : IsList popped (m.next x) xs
  IsList-popped = go xs free.list.last free.list.chain.4
    where
      go : (ys : List ℕ) (last : ℕ) → Chain m x (m.next x) ys last 0 → IsList popped (m.next x) ys
      go [] last d = record { last = 0; chain = (d.0, refl) }
      go (y ∷ ys) last d = record {
        last = last;
        chain =
            relink m popped x 0 (m.next x) y ys last 0 0 d (λ b i ne. ground arith)
              (λ b i ne. ground arith) (ground (arith, end_next m x (m.next x) y ys last 0 d))
              (ground (arith, d.0, d.1));
      }

  pub takes_all :
      m.size x ≡ size
      → take_end size (extents m (x ∷ xs)) ≡ some (extent popped x, extents popped xs)
  takes_all fits =
      let whole : (m.size x == size) ≡ true = ground arith in
      let big : ltb (m.size x) size ≡ false = ground arith in
      rw (big, whole, extents-popped xs, popped_size, popped_slide) refl

  pub IsFreeList-popped : IsFreeList popped (m.next x) xs
  IsFreeList-popped = record {
    list = IsList-popped;
    fit = subst AllFit (sym (extents-popped xs)) free.fit.3;
    disjoint = subst IsDisjoint (sym (extents-popped xs)) free.disjoint.1;
  }

  -- The last part of the first block.
  abbrev pub tail : ℕ
  tail = x + (m.size x - size)

  -- The memory once it is split off and taken out.
  abbrev pub parted : Memory
  parted = remove_block (split_memory m x size) tail

  pub tail_lem :
      size < m.size x
      → (add_word x (m.size x - size) ≡ tail)
        × (tail ≢ x)
        × (has tail xs ≡ false)
        × (inside tail (extent m x) ≡ true)
  tail_lem lt =
      let fit = free.fit in
      let lies : inside tail (extent m x) ≡ true = ground (arith, some_size) in
      let none_else : covered tail (extents m xs) ≡ false = ground (arith, free.disjoint.0 tail) in
      (ground (arith, fit.2), ground arith, fresh_lem m tail xs fit.3 none_else, lies)

  pub parted_next : size < m.size x → (b : ℕ) → b ≢ tail → parted.next b ≡ m.next b
  unfolding remove_block split_memory
  parted_next lt b ne = ground (arith, tail_lem lt)

  pub behind : (m.next x ≡ 0) ⊎ ((has (m.next x) xs ≡ true) × (m.prev (m.next x) ≡ x))
  behind = go xs free.list.last free.list.chain.4
    where
      go :
          (ys : List ℕ) (last : ℕ)
          → Chain m x (m.next x) ys last 0
          → (m.next x ≡ 0) ⊎ ((has (m.next x) ys ≡ true) × (m.prev (m.next x) ≡ x))
      go [] last d = inl d.0
      go (y ∷ ys) last d = inr (ground (arith, d.0), ap m.prev d.0 ∙ d.2)

  pub parted_prev : size < m.size x → (b : ℕ) → b ≢ tail → b ≢ 0 → parted.prev b ≡ m.prev b
  unfolding remove_block split_memory
  parted_prev lt b ne ne0 = ground (arith, tail_lem lt, behind)

  parted_size :
      size < m.size x
      → (b : ℕ)
      → parted.size b ≡ (if b == tail then size else if b == x then m.size x - size else m.size b)
  unfolding remove_block split_memory
  parted_size lt b = ground (arith, tail_lem lt)

  parted_slide :
      size < m.size x → (b : ℕ) → parted.slide b ≡ (if b == tail then m.slide x else m.slide b)
  unfolding remove_block split_memory
  parted_slide lt b = ground (arith, tail_lem lt)

  extents-parted : size < m.size x → extents parted xs ≡ extents m xs
  extents-parted lt = extents-same m parted xs λ b i. (
    ground (arith, parted_size lt b, tail_lem lt, free.list.chain.3),
    ground (arith, parted_slide lt b, tail_lem lt),
  )

  pub IsFreeList-parted : size < m.size x → IsFreeList parted x (x ∷ xs)
  IsFreeList-parted lt =
      let c = free.list.chain in
      let next = parted_next lt x (ground (arith, tail_lem lt)) in
      let size_x = parted_size lt x in
      let less : parted.size x ≡ m.size x - size = ground (arith, size_x, tail_lem lt) in
      let same = extents-parted lt in
      let rest_disjoint : IsDisjoint
          ((record { start = x; size = m.size x - size; slide = parted.slide x }) ∷ extents m xs) =
        (λ p. ground (arith, free.disjoint.0 p), free.disjoint.1) in
      record {
        list = record {
          last = free.list.last;
          chain = (
            refl,
            c.1,
            parted_prev lt x (ground (arith, tail_lem lt)) c.1 ∙ c.2,
            c.3,
            rw next (
                frame m parted x (m.next x) xs free.list.last 0 c.4 λ b i. (
                  parted_next lt b (ground (arith, tail_lem lt)),
                  parted_prev lt b (ground (arith, tail_lem lt))
                      (not_null m x (m.next x) xs free.list.last 0 b c.4 i),
                )),
          );
        };
        fit = rw (same, less) (free.fit.0, ground arith, ground (arith, free.fit.2), free.fit.3);
        disjoint = rw (same, less) rest_disjoint;
      }

  pub takes_part :
      size < m.size x
      → take_end size (extents m (x ∷ xs)) ≡ some (extent parted tail, extents parted (x ∷ xs))
  takes_part lt =
      let big : ltb (m.size x) size ≡ false = ground arith in
      let more : (m.size x == size) ≡ false = ground arith in
      let (at_tail, ne, out, lies) = tail_lem lt in
      let size_tail : parted.size tail ≡ size = ground (arith, parted_size lt tail) in
      let slide_tail : parted.slide tail ≡ m.slide x = ground (arith, parted_slide lt tail) in
      let size_x : parted.size x ≡ m.size x - size = ground (arith, parted_size lt x) in
      let slide_x : parted.slide x ≡ m.slide x = ground (arith, parted_slide lt x) in
      rw (big, more, extents-parted lt, size_tail, slide_tail, size_x, slide_x) refl

-- The extent is of the size `n`, and it and the others are what there was, with no address in both.
abbrev pub IsSplit : ℕ → List Extent → Extent → List Extent → Type 0
IsSplit n es e fs =
    (e.size ≡ n)
    × (total es ≡ n + total fs)
    × ((p : ℕ) → covered p es ≡ (inside p e || covered p fs))
    × ((p : ℕ) → (inside p e && covered p fs) ≡ false)
    × AllFit (e ∷ [])

abbrev pub IsSplitBy : ℕ → List Extent → Option (Extent × List Extent) → Type 0
IsSplitBy n es none = Unit
IsSplitBy n es (some (e, fs)) = IsSplit n es e fs

pub take_end_lem :
    (n : ℕ) (es : List Extent) → 0 < n → AllFit es → IsDisjoint es → IsSplitBy n es (take_end n es)
take_end_lem n [] pos fit d = tt
take_end_lem n (g ∷ gs) pos fit d = elim (Bool-cases (ltb g.size n)) [
  | inl small ↦ rw small tt
  | inr large ↦ elim (Bool-cases (g.size == n)) [
    | inl whole ↦
        rw (large, whole)
          (let size : g.size ≡ n = ground arith in
            (size, omega (arith, size), λ p. refl, λ p. d.0 p, (fit.0, fit.1, fit.2, tt)))
    | inr more ↦
        rw (large, more)
          (
            refl,
            ground arith,
            λ p. ground arith,
            λ p. ground (arith, d.0 p),
            (ground (arith, fit.0), pos, ground (arith, fit.2), tt),
          )
  ]
]
