-- ===== src/PageTables/Portions.antt =====
-- The head, the body and the tail that `mapWithList` maps one after the other.
use bez_os.PageTables.LargeEntry.{is_not_huge}
use bez_os.PageTables.MapBlocks.{map_range-BlocksMapped}
use bez_os.PageTables.Filled.{Filled, RangeMapped-Filled, Filled-none, BlocksMapped-Filled}
use bez_os.PageTables.MapRange.{AreEnough, map_range-RangeMapped}
use bez_os.PageTables.Tree.{IsTree, AreFree, resolve}
use bez_os.TableList.{PageTableAllocation, page_size}
use bez_os.PageTables.Chain.{is_small}
use bez_os.PageTables.Map.{map_range_4k, map_range_2m, Tables}
use bez_os.PageTables.{PageTables}
use bez_os.LargePage.{AddressMapping, large_page_size}
use bez_os.Range.{word}
use bez_os.PageEntry.{Entry, PageFlags, MemoryType, max_physical_address}
use bez_os.Prelude.{
  ◌==◌, if◌then◌else◌, ℕ, zero, suc, ◌+◌, ◌*◌, ◌%◌, ◌≤◌, ◌<◌, ◌≡◌, refl, inr, true, false, Option,
  none, some, List, arith,
}

-- A mapping of `n` pages from the page `first` on.
pub record Lies (m : AddressMapping) (base first n : ℕ) : Type 0 where
  pub size : m.size ≡ n * page_size
  pub top : m.vaddr + m.size ≤ word
  pub start : m.vaddr ≡ base * 281474976710656 + first * page_size
  pub within : first + n ≤ 68719476736
  pub aligned : m.paddr % page_size ≡ 0

-- The state in which pages are mapped: a tree of tables, and free tables enough for the pages.
pub record IsReady (s : PageTables) (levels prefixes : ℕ → ℕ) (buffer : List PageTableAllocation)
    (first n : ℕ) : Type 0 where
  pub tree : IsTree s levels prefixes
  pub free : AreFree s levels buffer
  pub wide : max_physical_address s.builder < word
  pub small : (q : ℕ) → first ≤ q → q < first + n → is_small (resolve 3 s s.root q) ≡ true
  pub enough : AreEnough s buffer first n

AreEnough-less :
    (s : PageTables) (buffer : List PageTableAllocation) (first n k : ℕ)
    → n ≤ k
    → AreEnough s buffer first k
    → AreEnough s buffer first n
AreEnough-less s buffer first zero k le enough = tt
AreEnough-less s buffer first (suc n) zero le enough = absurd (omega (arith, le))
AreEnough-less s buffer first (suc n) (suc k) le enough = omega (arith, le, enough)

-- The first pages of those that are ready, and the rest after the first are mapped.
pub IsReady-less :
    (s : PageTables) (levels prefixes : ℕ → ℕ) (buffer : List PageTableAllocation) (first n k : ℕ)
    → n ≤ k
    → IsReady s levels prefixes buffer first k
    → IsReady s levels prefixes buffer first n
IsReady-less s levels prefixes buffer first n k le r = record {
  tree = r.tree;
  free = r.free;
  wide = r.wide;
  small = λ q lo hi. r.small q lo (omega (arith, le, hi));
  enough = AreEnough-less s buffer first n k le r.enough;
}

pub IsReady-rest :
    (s : PageTables) (levels prefixes : ℕ → ℕ) (buffer : List PageTableAllocation)
    (first n k paddr : ℕ) (result : Option Tables)
    (f : Filled s levels prefixes buffer first n paddr result)
    → first + (n + k) ≤ 68719476736
    → IsReady s levels prefixes buffer first (n + k)
    → IsReady f.tables f.levels' f.prefixes' f.left (first + n) k
IsReady-rest s levels prefixes buffer first n k paddr result f fits r = record {
  tree = f.tree;
  free = f.free;
  wide = rw f.builder_kept r.wide;
  small = λ q lo hi.
      rw (f.outside q (omega (arith, hi, fits)) (inr lo))
        (r.small q (omega (arith, lo)) (omega (arith, hi)));
  enough = f.spare (n + k) k refl fits r.enough;
}

pub fill_4k :
    (s : PageTables) (levels prefixes : ℕ → ℕ) (buffer : List PageTableAllocation)
    (m : AddressMapping) (flags : PageFlags) (type : MemoryType) (base first n fuel : ℕ)
    → IsReady s levels prefixes buffer first n
    → Lies m base first n
    → m.paddr + m.size ≤ max_physical_address s.builder
    → n < fuel
    → Filled s levels prefixes buffer first n m.paddr (map_range_4k fuel (s, buffer) m flags type)
unfolding map_range_4k
fill_4k s levels prefixes buffer m flags type base first n fuel r l phys lt =
    RangeMapped-Filled s levels prefixes buffer first n m.paddr flags type _ l.aligned
      (omega (arith, phys, l.size)) r.wide
      (map_range-RangeMapped n fuel s levels prefixes buffer m flags type 0 base first m.paddr
        r.tree r.free lt (omega (arith, l.size)) l.top (omega (arith, l.start)) l.within
        (omega arith) phys r.wide
        (λ i below. r.small (first + i) (omega arith) (omega (arith, below))) r.enough)

-- The head or the tail, which may be empty.
pub fill_end :
    (s : PageTables) (levels prefixes : ℕ → ℕ) (buffer : List PageTableAllocation)
    (m : AddressMapping) (flags : PageFlags) (type : MemoryType) (base first n fuel : ℕ)
    → IsReady s levels prefixes buffer first n
    → Lies m base first n
    → m.paddr + m.size ≤ max_physical_address s.builder
    → n < fuel
    → Filled s levels prefixes buffer first n m.paddr
        (if m.size == 0 then some (s, buffer) else map_range_4k fuel (s, buffer) m flags type)
fill_end s levels prefixes buffer m flags type base first zero fuel r l phys lt =
    let empty : (m.size == 0) ≡ true = ground (arith, l.size) in
    rw empty (Filled-none s levels prefixes buffer first m.paddr r.tree r.free)
fill_end s levels prefixes buffer m flags type base first (suc n) fuel r l phys lt =
    let some_left : (m.size == 0) ≡ false = ground (arith, l.size) in
    rw some_left (fill_4k s levels prefixes buffer m flags type base first (suc n) fuel r l phys lt)

small-not_huge : (o : Option (ℕ × Entry)) → is_small o ≡ true → is_not_huge o ≡ true
small-not_huge none e = refl
small-not_huge (some r) e = ground (arith, e)

-- The body.
pub fill_2m :
    (s : PageTables) (levels prefixes : ℕ → ℕ) (buffer : List PageTableAllocation)
    (m : AddressMapping) (flags : PageFlags) (type : MemoryType) (base first n fuel : ℕ)
    → IsReady s levels prefixes buffer first (n * 512)
    → Lies m base first (n * 512)
    → m.vaddr % large_page_size ≡ 0
    → m.paddr + m.size ≤ max_physical_address s.builder
    → n < fuel
    → Filled s levels prefixes buffer first
        (n * 512)
        m.paddr
        (map_range_2m fuel (s, buffer) m flags type)
unfolding map_range_2m
fill_2m s levels prefixes buffer m flags type base first n fuel r l whole phys lt =
    let start : first % 512 ≡ 0 = omega (arith, whole, l.start) in
    BlocksMapped-Filled s levels prefixes buffer first n m.paddr flags _ start l.aligned
      (omega (arith, phys, l.size)) r.wide
      (map_range-BlocksMapped n fuel s levels prefixes buffer m flags type 0 base first m.paddr
        r.tree r.free lt (omega (arith, l.size)) l.top (omega (arith, l.start)) start l.within
        (omega arith) phys r.wide
        (λ q lo hi. small-not_huge (resolve 3 s s.root q) (r.small q lo hi)) r.enough)
