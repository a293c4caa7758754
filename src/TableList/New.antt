-- ===== src/TableList/New.antt =====
-- The constructor of `PageTableList`.
use bez_os.TableAllocator.{mul_word}
use bez_os.Range.{add_word}
use bez_os.TableList.Runs.{offset_lem, in_run}
use bez_os.TableList.Pages.{holds, Links}
use mathlib.Core.Path.{subst}
use bez_os.Prelude.{
  ◌==◌, Bool-cases, length, ℕ, zero, suc, ◌+◌, ◌-◌, ◌*◌, ◌^◌, ◌≤◌, ◌<◌, ◌≡◌, refl, sym, ap, ◌∙◌,
  ◌≢◌, ◌⊎◌, inl, inr, true, false, List, [], ◌∷◌, arith,
}
use bez_os.ControlBlock.{Memory}
use bez_os.TableList.{
  PageTableAllocation, offset, link_pages, new_list, page_size, set_next_page, no_page,
}

-- The `n` pages from the page `i` on.
abbrev pub pages_from : ℕ → PageTableAllocation → ℕ → List PageTableAllocation
pages_from zero a i = []
pages_from (suc n) a i = offset a i ∷ pages_from n a (suc i)

pub length-pages_from : (n : ℕ) (a : PageTableAllocation) (i : ℕ) → length (pages_from n a i) ≡ n
length-pages_from zero a i = refl
length-pages_from (suc n) a i = ap suc (length-pages_from n a (suc i))

-- The pages lie in the allocation.
pub holds-pages_from :
    (n : ℕ) (a : PageTableAllocation) (i b : ℕ)
    → a.block + (i + n) * page_size ≤ 2 ^ 64
    → (holds b (pages_from n a i) ≡ false) ⊎ (in_run b a i n ≡ true)
holds-pages_from zero a i b fits = inl refl
holds-pages_from (suc n) a i b fits =
    ground (arith, holds-pages_from n a (suc i) b, offset_lem a i (omega arith))

-- The memory once the pages from `i` to `last` are linked and the last ends the list.
abbrev linked : ℕ → Memory → PageTableAllocation → (i last : ℕ) → Memory
linked n m a i last = set_next_page (link_pages n m a i) (offset a last) no_page

-- What linking changes.
record Linked (n : ℕ) (m : Memory) (a : PageTableAllocation) (i last : ℕ) : Type 0 where
  links : Links (linked n m a i last) (offset a i) (pages_from (suc n) a i)
  same :
      (b : ℕ)
      → (in_run b a i (suc n) ≡ true)
        ⊎ (((linked n m a i last).next b ≡ m.next b) × ((linked n m a i last).prev b ≡ m.prev b))
  sizes : ((linked n m a i last).size ≡ m.size) × ((linked n m a i last).slide ≡ m.slide)

link_pages_lem :
    (n : ℕ) (m : Memory) (a : PageTableAllocation) (i last : ℕ)
    → last ≡ i + n
    → 0 < a.block
    → a.block + (i + suc n) * page_size ≤ 2 ^ 64
    → Linked n m a i last
unfolding link_pages
link_pages_lem zero m a i last end pos fits =
    let only : last ≡ i = omega arith in
    let at_i = offset_lem a i (omega arith) in
    rw only (record {
      links = (refl, ground (arith, at_i), refl, ground arith);
      same = λ b. elim (Bool-cases (b == (offset a i).block)) [
        | inl here ↦ inl (ground (arith, at_i))
        | inr other ↦ inr (ground arith, ground arith)
      ];
      sizes = (refl, refl);
    })
link_pages_lem (suc n) m a i last end pos fits =
    let page = offset a i in
    let at_i : page.block ≡ a.block + i * page_size = offset_lem a i (omega arith) in
    let m' = set_next_page m page (offset a (suc i)) in
    let r = link_pages_lem n m' a (suc i) last (omega arith) pos (omega arith) in
    let kept : (b : ℕ) → b ≢ page.block → (m'.next b ≡ m.next b) × (m'.prev b ≡ m.prev b) =
      λ b ne. (ground arith, ground arith) in
    let own : (m'.next page.block ≡ (offset a (suc i)).block)
        × (m'.prev page.block ≡ (offset a (suc i)).slide) =
      (ground arith, ground arith) in
    let now = linked n m' a (suc i) last in
    let still : (now.next page.block ≡ m'.next page.block)
        × (now.prev page.block ≡ m'.prev page.block) =
      elim (r.same page.block) [
        | inl later ↦ absurd (ground (arith, at_i, later))
        | inr same ↦ same
      ] in
    let next = still.0 ∙ own.0 in
    let slide = still.1 ∙ own.1 in
    record {
      links = (
        refl,
        ground (arith, at_i),
        ground (arith, holds-pages_from (suc n) a (suc i) page.block (omega arith), at_i),
        rw (next, slide) r.links,
      );
      same = λ b. elim (r.same b) [
        | inl later ↦ inl (ground (arith, later))
        | inr same ↦ elim (Bool-cases (b == page.block)) [
          | inl here ↦ inl (ground (arith, at_i))
          | inr other ↦ let k = kept b (ground arith) in inr (same.0 ∙ k.0, same.1 ∙ k.1)
        ]
      ];
      sizes = r.sizes;
    }

new_list-linked :
    (n : ℕ) (m : Memory) (a : PageTableAllocation) → new_list m a (suc n) ≡ (linked n m a 0 n, a)
unfolding new_list
new_list-linked n m a = let e : suc n - 1 ≡ n = omega arith in rw e refl

offset_none : (a : PageTableAllocation) → a.block < 2 ^ 64 → offset a 0 ≡ a
unfolding offset
offset_none a lt =
    let e : add_word a.block (mul_word 0 page_size) ≡ a.block = ground arith in
    ap (λ b. record a { block = b }) e

-- What the constructor of `PageTableList` comes to.
pub record NewList (m : Memory) (a : PageTableAllocation) (count : ℕ) : Type 0 where
  pub links : Links (new_list m a count).0 (new_list m a count).1 (pages_from count a 0)
  pub same :
      (b : ℕ)
      → (in_run b a 0 count ≡ true)
        ⊎ (((new_list m a count).0.next b ≡ m.next b) × ((new_list m a count).0.prev b ≡ m.prev b))
  pub sizes : ((new_list m a count).0.size ≡ m.size) × ((new_list m a count).0.slide ≡ m.slide)

-- The constructor of `PageTableList` links the pages of an allocation, which is one page at least, is not at
-- null and does not reach past the end of the address space, and touches no other memory.
pub new_list_lem :
    (m : Memory) (a : PageTableAllocation) (count : ℕ)
    → 0 < count
    → 0 < a.block
    → a.block + count * page_size ≤ 2 ^ 64
    → NewList m a count
new_list_lem m a zero pos ne fits = absurd (omega arith)
new_list_lem m a (suc n) pos ne fits =
    let r = link_pages_lem n m a 0 n (omega arith) ne (omega arith) in
    let now = new_list-linked n m a in
    record {
      links =
          subst (λ (p : Memory × PageTableAllocation). Links p.0 p.1 (pages_from (suc n) a 0))
            (sym now)
            (subst (λ l. Links (linked n m a 0 n) l (pages_from (suc n) a 0))
              (offset_none a (omega arith)) r.links);
      same = rw now r.same;
      sizes = rw now r.sizes;
    }
