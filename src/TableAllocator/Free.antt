-- ===== src/TableAllocator/Free.antt =====
-- The free list of the allocator: its invariant.
use bez_os.ControlBlock.Chain.{has, frame}
use bez_os.ControlBlock.Spaced.{IsDisjoint, AllFit-at, covers}
use bez_os.ControlBlock.Extents.{AllFit, extents, covered, extents-same}
use bez_os.ControlBlock.Order.{IsList}
use mathlib.Core.Path.{subst}
use bez_os.Prelude.{ℕ, ◌≡◌, sym, ap, true, List, arith}
use bez_os.ControlBlock.{Memory}

-- The pointers from `first` lead through the blocks and back, and the blocks are memory of their own: none
-- is empty, reaches past the end of the address space or overlaps another.
pub record IsFreeList (m : Memory) (first : ℕ) (xs : List ℕ) : Type 0 where
  pub list : IsList m first xs
  pub fit : AllFit (extents m xs)
  pub disjoint : IsDisjoint (extents m xs)

-- What lies outside the free blocks can change.
pub IsFreeList-frame :
    (m m' : Memory) (first : ℕ) (xs : List ℕ)
    → IsFreeList m first xs
    → ((b : ℕ) → covered b (extents m xs) ≡ true → (m'.next b ≡ m.next b) × (m'.prev b ≡ m.prev b))
    → m'.size ≡ m.size
    → m'.slide ≡ m.slide
    → IsFreeList m' first xs × (extents m' xs ≡ extents m xs)
IsFreeList-frame m m' first xs free same size slide =
    let sums = extents-same m m' xs (λ b i. (ap (λ f. f b) size, ap (λ f. f b) slide)) in
    (
      record {
        list = record {
          last = free.list.last;
          chain = frame m m' 0 first xs free.list.last 0 free.list.chain λ b i. same b (own b i);
        };
        fit = subst AllFit (sym sums) free.fit;
        disjoint = subst IsDisjoint (sym sums) free.disjoint;
      },
      sums,
    )
  where
    own : (b : ℕ) → has b xs ≡ true → covered b (extents m xs) ≡ true
    own b i = let f = AllFit-at m b xs free.fit i in covers m b b xs i (ground (arith, f.1))
