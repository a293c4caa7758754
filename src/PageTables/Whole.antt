-- ===== src/PageTables/Whole.antt =====
-- `mapWithList` as a change of what each address is mapped to.
use bez_os.PageTables.LargeEntry.{is_not_huge}
use bez_os.PageEntry.Types.{masked-eq}
use bez_os.PageTables.MapBlock.{map2m-Mapped2m}
use bez_os.PageTables.Backing.{get_backing_address-resolve, backing, size_of}
use bez_os.PageTables.WithList.{map_with_list-Filled}
use bez_os.PageTables.Mapping.{reserve-AreEnough}
use bez_os.PageTables.Walk.{get_backing_address, page_size_of, walk_unlocked, PageSize}
use bez_os.PageTables.Map.{map_with_list, map2m}
use bez_os.PageTables.Chain.{is_small}
use bez_os.PageTables.MapPage.{page_of}
use bez_os.PageTables.Tree.{IsTree, AreFree, resolve, missing}
use bez_os.PageEntry.{PageFlags, MemoryType, max_physical_address}
use bez_os.LargePage.{AddressMapping, large_page_size, max_pages_for_mapping}
use bez_os.TableList.{PageTableAllocation, page_size}
use bez_os.PageTables.{PageTables}
use mathlib.Core.Path.{subst}
use bez_os.Range.{word, range, add_word}
use bez_os.Prelude.{
  ltb, leb, ◌==◌, if◌then◌else◌, Bool-cases, length, ℕ, suc, ◌+◌, ◌-◌, ◌*◌, ◌/◌, ◌%◌, ◌≤◌, ◌<◌, ◌≡◌,
  refl, sym, ap, ◌∙◌, inl, inr, true, ◌&&◌, some, List, arith,
}

-- A mapping of `n` + 1 pages, of aligned addresses, that ends 2 MiB or more below 2^64, does not cross a
-- multiple of 2^48 in the virtual address space and ends not above the physical address mask, itself
-- 2 MiB or more below 2^64. The tables are a tree, no large page maps one of the pages, and the list has
-- at least the `MaxPagesForMapping` free tables that the kernel reserves. Then `mapWithList`, on a fuel of
-- more than the pages, returns, whether it uses large pages or not. The addresses of the pages are
-- mapped to the physical addresses at their offset, and any other address to what it was mapped to before.
pub map_with_list_lem :
    (s : PageTables) (levels prefixes : ℕ → ℕ) (buffer : List PageTableAllocation)
    (m : AddressMapping) (flags : PageFlags) (type : MemoryType) (n fuel other : ℕ)
    → IsTree s levels prefixes
    → AreFree s levels buffer
    → m.size ≡ suc n * page_size
    → m.vaddr % page_size ≡ 0
    → m.paddr % page_size ≡ 0
    → m.vaddr % 281474976710656 + m.size ≤ 281474976710656
    → m.vaddr + m.size + large_page_size ≤ word
    → m.paddr + m.size ≤ max_physical_address s.builder
    → max_physical_address s.builder + large_page_size ≤ word
    → ((q : ℕ)
        → page_of m.vaddr ≤ q
        → q < page_of m.vaddr + suc n
        → is_small (resolve 3 s s.root q) ≡ true)
    → max_pages_for_mapping (range m.vaddr (m.vaddr + m.size)) ≤ length buffer
    → suc n < fuel
    → (s' : PageTables) × (left : List PageTableAllocation) × (map_with_list fuel
          (s, buffer)
          m
          flags
          type
        ≡ some (s', left))
      × (get_backing_address s' other ≡ (
          if leb (page_of m.vaddr) (page_of other) && ltb (page_of other) (page_of m.vaddr + suc n)
          then m.paddr + (page_of other - page_of m.vaddr) * page_size + other % page_size
          else get_backing_address s other))
map_with_list_lem s levels prefixes buffer m flags type n fuel other tree free size va pa within top
      phys room small reserve lt =
    let first = page_of m.vaddr in
    let enough =
      reserve-AreEnough s buffer m.vaddr n va (omega (arith, within, size))
        (omega (arith, top, size))
        (subst (λ b. max_pages_for_mapping (range m.vaddr (m.vaddr + b)) ≤ length buffer) size
          reserve) in
    let all =
      map_with_list-Filled s levels prefixes buffer m flags type (m.vaddr / 281474976710656) first
        (suc n) fuel
        (record {
          tree = tree;
          free = free;
          wide = omega (arith, room);
          small = small;
          enough = enough;
        })
        (record {
          size = size;
          top = omega (arith, top);
          start = omega (arith, va);
          within = omega (arith, within, size, va);
          aligned = pa;
        })
        top phys room lt in
    let there = get_backing_address-resolve all.tables all.levels' all.prefixes' other all.tree in
    let before = get_backing_address-resolve s levels prefixes other tree in
    (
      all.tables,
      all.left,
      all.returns,
      elim (Bool-cases (leb first (page_of other) && ltb (page_of other) (first + suc n))) [
        | inl inside ↦
            let i = page_of other - first in
            let page : page_of other ≡ first + i = ground arith in
            rw inside (
              there.0
              ∙ ap (λ p. backing (resolve 3 all.tables all.tables.root p) other) page
              ∙ all.inside i (ground arith) other page)
        | inr outside ↦ rw outside (
            there.0
            ∙ ap (λ r. backing r other) (all.outside (page_of other) (omega arith) (ground arith))
            ∙ sym before.0)
      ],
    )

-- In a tree of tables, with enough free tables for those that the address lacks, no page of 1 GiB in
-- the way and a physical address, a multiple of 2 MiB, not above the mask, itself 2 MiB or more below 2^64,
-- `map2m` returns. Then the addresses of the 2 MiB around the address are mapped to the physical address
-- at their offset, by a large page, and every other address to what it was mapped to before.
pub map2m_lem :
    (s : PageTables) (levels prefixes : ℕ → ℕ) (buffer : List PageTableAllocation)
    (vaddr paddr other : ℕ) (flags : PageFlags) (type : MemoryType)
    → IsTree s levels prefixes
    → AreFree s levels buffer
    → missing 3 s s.root (page_of vaddr) ≤ length buffer
    → is_not_huge (resolve 3 s s.root (page_of vaddr)) ≡ true
    → paddr % large_page_size ≡ 0
    → paddr ≤ max_physical_address s.builder
    → max_physical_address s.builder + large_page_size ≤ word
    → (s' : PageTables) × (left : List PageTableAllocation) × (map2m
          (s, buffer)
          paddr
          vaddr
          flags
          type
        ≡ some (s', left))
      × (page_size_of (walk_unlocked s' vaddr) ≡ PageSize.large)
      × (get_backing_address s' other ≡ (
          if page_of other / 512 == page_of vaddr / 512
          then paddr + other % large_page_size
          else get_backing_address s other))
map2m_lem s levels prefixes buffer vaddr paddr other flags type tree free enough small aligned fits
      room =
    let one =
      map2m-Mapped2m s levels prefixes buffer vaddr (page_of vaddr) paddr flags type refl tree free
        enough small fits in
    let here = get_backing_address-resolve one.tables one.levels' one.prefixes' vaddr one.tree in
    let there = get_backing_address-resolve one.tables one.levels' one.prefixes' other one.tree in
    let before = get_backing_address-resolve s levels prefixes other tree in
    let whole : one.entry.address ≡ paddr =
      one.maps.address ∙ masked-eq s.builder paddr (omega (arith, aligned)) fits in
    (
      one.tables,
      one.left,
      one.returns,
      here.1 ∙ ap size_of (one.resolved (page_of vaddr) refl),
      elim (Bool-cases (page_of other / 512 == page_of vaddr / 512)) [
        | inl same ↦ rw same (
            there.0
            ∙ ap (λ r. backing r other) (one.resolved (page_of other) (ground arith))
            ∙ ap (λ a. add_word (add_word a (other / 4096 % 512 * 4096)) (other % 4096)) whole
            ∙ omega (arith, fits, room))
        | inr off ↦ rw off (
            there.0
            ∙ ap (λ r. backing r other) (one.others (page_of other) (omega arith) (ground arith))
            ∙ sym before.0)
      ],
    )
