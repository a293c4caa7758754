-- ===== src/PageTables/Mapping.antt =====
-- `map4k` and `mapRange4k` as changes of what each address is mapped to.
use bez_os.LargePage.Segments.{max_pages_for_mapping-covers, segments}
use bez_os.PageTables.Near.{crossings, missing-bound}
use bez_os.PageTables.Place.{Maps}
use bez_os.PageTables.Backing.{pte_of, get_backing_address-resolve, size_of, last_of, backing}
use bez_os.PageTables.Walk.{page_size_of, walk_unlocked, PageSize, get_backing_address}
use bez_os.PageTables.Map.{map4k}
use bez_os.PageTables.Chain.{is_small}
use bez_os.PageTables.MapPage.{page_of, map4k-Mapped}
use bez_os.PageTables.MapRange.{AreEnough}
use bez_os.PageTables.Tree.{IsTree, AreFree, missing, resolve}
use bez_os.TableList.{PageTableAllocation, page_size}
use bez_os.LargePage.{max_pages_for_mapping, pml4_memory_size, huge_page_size, large_page_size}
use bez_os.PageTables.{PageTables}
use bez_os.Range.{word, range, add_word}
use bez_os.PageEntry.{Entry, PageFlags, MemoryType, max_physical_address, masked}
use bez_os.Prelude.{
  ◌==◌, if◌then◌else◌, Bool-cases, length, ℕ, suc, ◌+◌, ◌*◌, ◌%◌, ◌≤◌, ◌<◌, ◌≡◌, refl, sym, ap, ◌∙◌,
  inl, inr, true, some, List, arith,
}

-- In a tree of tables, with enough free tables for those that the address lacks, no large page in the
-- way and a physical address not above the mask, `map4k` returns. Then the page of the address is a
-- regular page with the flags, the memory type and the physical address given, and every address of
-- another page is mapped to what it was mapped to before.
pub map4k_lem :
    (s : PageTables) (levels prefixes : ℕ → ℕ) (buffer : List PageTableAllocation)
    (vaddr paddr other : ℕ) (flags : PageFlags) (type : MemoryType)
    → IsTree s levels prefixes
    → AreFree s levels buffer
    → missing 3 s s.root (page_of vaddr) ≤ length buffer
    → is_small (resolve 3 s s.root (page_of vaddr)) ≡ true
    → paddr ≤ max_physical_address s.builder
    → (s' : PageTables) × (left : List PageTableAllocation) × (map4k
          (s, buffer)
          paddr
          vaddr
          flags
          type
        ≡ some (s', left))
      × (page_size_of (walk_unlocked s' vaddr) ≡ PageSize.regular)
      × ((e : Entry) × (pte_of (walk_unlocked s' vaddr) ≡ some e)
          × Maps s.builder e flags type paddr)
      × (get_backing_address s' other ≡ (
          if page_of other == page_of vaddr
          then add_word (masked s.builder paddr) (other % 4096)
          else get_backing_address s other))
map4k_lem s levels prefixes buffer vaddr paddr other flags type tree free enough small fits =
    let one =
      map4k-Mapped s levels prefixes buffer vaddr (page_of vaddr) paddr flags type refl tree free
        enough small fits in
    let here = get_backing_address-resolve one.tables one.levels' one.prefixes' vaddr one.tree in
    let there = get_backing_address-resolve one.tables one.levels' one.prefixes' other one.tree in
    let before = get_backing_address-resolve s levels prefixes other tree in
    (
      one.tables,
      one.left,
      one.returns,
      here.1 ∙ ap size_of one.resolved,
      (one.entry, here.2 ∙ ap last_of one.resolved, one.maps),
      elim (Bool-cases (page_of other == page_of vaddr)) [
        | inl same ↦
            let page : page_of other ≡ page_of vaddr = ground arith in
            rw same (
              there.0
              ∙ ap (λ p. backing (resolve 3 one.tables one.tables.root p) other) page
              ∙ ap (λ r. backing r other) one.resolved
              ∙ ap (λ a. add_word a (other % 4096)) one.maps.address)
        | inr off ↦ rw off (
            there.0
            ∙ ap (λ r. backing r other) (one.others (page_of other) (omega arith) (ground arith))
            ∙ sym before.0)
      ],
    )

-- Under the same conditions `map4k` keeps the tables a tree and the pages left on the list free, and
-- takes as many of them as the address lacked tables.
pub map4k-IsTree :
    (s : PageTables) (levels prefixes : ℕ → ℕ) (buffer : List PageTableAllocation) (vaddr paddr : ℕ)
    (flags : PageFlags) (type : MemoryType)
    → IsTree s levels prefixes
    → AreFree s levels buffer
    → missing 3 s s.root (page_of vaddr) ≤ length buffer
    → is_small (resolve 3 s s.root (page_of vaddr)) ≡ true
    → paddr ≤ max_physical_address s.builder
    → (s' : PageTables) × (left : List PageTableAllocation) × (levels' prefixes' : ℕ → ℕ) × (map4k
          (s, buffer)
          paddr
          vaddr
          flags
          type
        ≡ some (s', left))
      × IsTree s' levels' prefixes'
      × AreFree s' levels' left
      × (length buffer ≡ length left + missing 3 s s.root (page_of vaddr))
map4k-IsTree s levels prefixes buffer vaddr paddr flags type tree free enough small fits =
    let one =
      map4k-Mapped s levels prefixes buffer vaddr (page_of vaddr) paddr flags type refl tree free
        enough small fits in
    (one.tables, one.left, one.levels', one.prefixes', one.returns, one.tree, one.free, one.taken)

-- The tables that a mapping of pages lies across, by the address and by the page.
crossings-segments :
    (vaddr n : ℕ)
    → vaddr % page_size ≡ 0
    → vaddr % 281474976710656 + suc n * page_size ≤ 281474976710656
    → vaddr + suc n * page_size < word
    → let r = range vaddr (vaddr + suc n * page_size) in
      crossings (page_of vaddr) (page_of vaddr + n) + 3
      ≡ segments r pml4_memory_size + segments r huge_page_size + segments r large_page_size
crossings-segments vaddr n va within top = omega (arith, va, within, top)

-- The tables reserved for a mapping are enough.
pub reserve-AreEnough :
    (s : PageTables) (buffer : List PageTableAllocation) (vaddr n : ℕ)
    → vaddr % page_size ≡ 0
    → vaddr % 281474976710656 + suc n * page_size ≤ 281474976710656
    → vaddr + suc n * page_size < word
    → max_pages_for_mapping (range vaddr (vaddr + suc n * page_size)) ≤ length buffer
    → AreEnough s buffer (page_of vaddr) (suc n)
reserve-AreEnough s buffer vaddr n va within top reserve =
    let r = range vaddr (vaddr + suc n * page_size) in
    omega (
      arith,
      missing-bound 3 s s.root (page_of vaddr),
      crossings-segments vaddr n va within top,
      (max_pages_for_mapping-covers r (omega arith) top (omega (arith, within))).0,
      reserve,
    )
