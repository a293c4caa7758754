-- ===== src/ListAllocator/Back.antt =====
-- `deallocateList`.
use bez_os.ControlBlock.Chain.{has}
use bez_os.TableAllocator.Give.{deallocate_lem}
use bez_os.ControlBlock.Spaced.{IsDisjoint, fresh_lem}
use bez_os.TableAllocator.Free.{IsFreeList}
use bez_os.TableList.Pages.{holds, Links, Links-frame}
use bez_os.ControlBlock.Extents.{Extent, covered, total, extents, AllFit}
use mathlib.Core.Path.{subst}
use bez_os.Prelude.{
  ◌==◌, length, ℕ, zero, suc, ◌+◌, ◌*◌, ◌<◌, ◌≡◌, refl, sym, ap, ◌∙◌, inl, inr, true, false, ◌||◌,
  some, List, [], ◌∷◌, ◌++◌, arith,
}
use bez_os.TableAllocator.{PageTableAllocator}
use bez_os.TableList.{PageTableAllocation, page_size, get_next}
use bez_os.ListAllocator.{deallocate_list}

-- The memory of pages.
abbrev pub page_extents : List PageTableAllocation → List Extent
page_extents [] = []
page_extents (p ∷ ps) =
    record { start = p.block; size = 1 * page_size; slide = p.slide } ∷ page_extents ps

-- The blocks of pages before others, the last page foremost.
abbrev pub given : List PageTableAllocation → List ℕ → List ℕ
given [] xs = xs
given (p ∷ ps) xs = given ps (p.block ∷ xs)

covered-append :
    (b : ℕ) (ds es : List Extent) → covered b (ds ++ es) ≡ (covered b ds || covered b es)
covered-append b [] es = refl
covered-append b (d ∷ ds) es = ground (arith, covered-append b ds es)

-- An extent can stand behind others.
IsDisjoint-move :
    (e : Extent) (ds es : List Extent) → IsDisjoint (e ∷ (ds ++ es)) → IsDisjoint (ds ++ (e ∷ es))
IsDisjoint-move e [] es d = d
IsDisjoint-move e (f ∷ ds) es d = (
  λ b. ground (arith, d.0 b, d.1.0 b, covered-append b ds es, covered-append b ds (e ∷ es)),
  IsDisjoint-move e ds es (λ b. ground (arith, d.0 b), d.1.1),
)

IsDisjoint-behind : (ds es : List Extent) → IsDisjoint (ds ++ es) → IsDisjoint es
IsDisjoint-behind [] es d = d
IsDisjoint-behind (e ∷ ds) es d = IsDisjoint-behind ds es d.1

-- What the first cover the others do not.
apart_lem :
    (ds es : List Extent) (b : ℕ)
    → IsDisjoint (ds ++ es)
    → covered b ds ≡ true
    → covered b es ≡ false
apart_lem [] es b d i = absurd (ground arith)
apart_lem (e ∷ ds) es b d i = ground (arith, d.0 b, covered-append b ds es, apart_lem ds es b d.1)

-- A page is covered by the pages that it is one of.
holds-covered :
    (b : ℕ) (ps : List PageTableAllocation) → holds b ps ≡ true → covered b (page_extents ps) ≡ true
holds-covered b [] i = absurd (ground arith)
holds-covered b (p ∷ ps) i = ground (arith, holds-covered b ps)

-- What `deallocateList` comes to.
pub record Returned (fuel : ℕ) (a : PageTableAllocator) (xs : List ℕ) (list : PageTableAllocation)
    (ps : List PageTableAllocation) : Type 0 where
  pub after : PageTableAllocator
  pub comes_to : deallocate_list fuel a list ≡ some after
  pub free : IsFreeList after.memory after.front (given ps xs)
  pub sum :
      total (extents after.memory (given ps xs))
      ≡ length ps * page_size + total (extents a.memory xs)
  pub covers :
      (b : ℕ)
      → covered b (extents after.memory (given ps xs))
        ≡ (covered b (page_extents ps) || covered b (extents a.memory xs))
  pub keeps_block_size : after.block_size ≡ a.block_size

-- `deallocateList` of pages that overlap neither each other nor the memory of the well-formed free
-- list, and do not reach past the end of the address space, where a block of the allocator is a page,
-- comes to its end, given more fuel than there are pages: the free list is well formed, and the free
-- memory is what it was and the pages.
pub deallocate_list_lem :
    (fuel : ℕ) (a : PageTableAllocator) (xs : List ℕ) (list : PageTableAllocation)
    (ps : List PageTableAllocation)
    → IsFreeList a.memory a.front xs
    → a.block_size ≡ page_size
    → Links a.memory list ps
    → AllFit (page_extents ps)
    → IsDisjoint (page_extents ps ++ extents a.memory xs)
    → length ps < fuel
    → Returned fuel a xs list ps
unfolding deallocate_list
deallocate_list_lem zero a xs list ps free paged links fits apart lt = absurd (omega arith)
deallocate_list_lem (suc fuel) a xs list [] free paged links fits apart lt = record {
  after = a;
  comes_to = rw links refl;
  free = free;
  sum = omega arith;
  covers = λ b. refl;
  keeps_block_size = refl;
}
deallocate_list_lem (suc fuel) a xs list (p ∷ ps) free paged links fits apart lt =
    let e : Extent = record { start = p.block; size = 1 * page_size; slide = p.slide } in
    let moved = IsDisjoint-move e (page_extents ps) (extents a.memory xs) apart in
    let fresh : IsDisjoint (e ∷ extents a.memory xs) =
      IsDisjoint-behind (page_extents ps) (e ∷ extents a.memory xs) moved in
    let own : 1 * a.block_size ≡ 1 * page_size = ap (λ n. 1 * n) paged in
    let one : AllFit (e ∷ []) = (fits.0, fits.1, fits.2, tt) in
    let g =
      deallocate_lem a xs p.block 1 p.slide free
        (subst (λ n. AllFit (record { start = p.block; size = n; slide = p.slide } ∷ [])) (sym own)
          one)
        (subst
          (λ n.
            IsDisjoint
              (record { start = p.block; size = n; slide = p.slide } ∷ extents a.memory xs))
          (sym own) fresh) in
    let stands : extents g.after.memory (p.block ∷ xs) ≡ e ∷ extents a.memory xs =
      g.stands_for
      ∙ ap (λ n. record { start = p.block; size = n; slide = p.slide } ∷ extents a.memory xs) own in
    let away : (b : ℕ) → holds b ps ≡ true → has b xs ≡ false = λ b i.
      fresh_lem a.memory b xs free.fit
        (apart_lem (page_extents ps) (extents a.memory xs) b apart.1 (holds-covered b ps i)) in
    let there : (p.block == 0) ≡ false = ground (arith, links.1) in
    let r =
      deallocate_list_lem fuel g.after (p.block ∷ xs) (get_next a.memory p) ps (rw g.front g.free)
        (g.keeps_block_size ∙ paged)
        (Links-frame a.memory g.after.memory (get_next a.memory p) ps links.3 (λ b i.
          elim (g.same b) [
            | inl here ↦ absurd (ground (arith, links.2, ap (λ c. holds c ps) here, i))
            | inr (inl member) ↦ absurd (ground (arith, away b i, member))
            | inr (inr untouched) ↦ untouched
          ]))
        fits.3 (subst (λ es. IsDisjoint (page_extents ps ++ es)) (sym stands) moved)
        (omega arith) in
    record {
      after = r.after;
      comes_to = rw (links.0, there, there, g.comes_to) r.comes_to;
      free = r.free;
      sum = omega (arith, r.sum, ap total stands);
      covers = λ b. ground (arith, r.covers b, ap (covered b) stands);
      keeps_block_size = r.keeps_block_size ∙ g.keeps_block_size;
    }
