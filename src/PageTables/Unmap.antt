-- ===== src/PageTables/Unmap.antt =====
-- Unmapping: `unmapUnlocked` and `reclaim2m`. `none` is a loop that runs out of its fuel.
use bez_os.PageTables.Walk.{find_page_map3, find_page_map2, find_page_table}
use bez_os.LargePage.{huge_page_size, pml4_memory_size, large_page_size}
use bez_os.TableList.{page_size}
use bez_os.Range.Pair.{roundup}
use bez_os.PageTables.{PageTables, deallocate, as_virtual, get_address_parts, set_entry}
use bez_os.Range.{add_word}
use bez_os.Prelude.{ltb, ◌==◌, if◌then◌else◌, ℕ, zero, suc, ◌%◌, false, not, Option, none, some}

-- `sm::nextMultiple`
pub next_multiple : ℕ → ℕ → ℕ
next_multiple value multiple =
    if value % multiple == 0 then add_word value multiple else roundup value multiple

-- The pdte is the entry at an index of the table `l2`.
pub reclaim_2m : PageTables → (l2 index : ℕ) → PageTables
reclaim_2m s l2 index =
    let pde = s.entries l2 index in
    let s' = if not pde.attribute then deallocate s (as_virtual s pde.address) pde.address else s in
    set_entry s' l2 index (record (s'.entries l2 index) { present = false; attribute = false })

-- One round of `unmapUnlocked` at an address, from the last table on, from level 2 on, from level 3 on,
-- and the whole: the tables and the next address.
unfoldable pub unmap_page : PageTables → (address : ℕ) → Option ℕ → PageTables × ℕ
unmap_page s address none = (s, add_word address page_size)
unmap_page s address (some pt) =
    let pte = (get_address_parts address).pte in
    (set_entry s pt pte (record (s.entries pt pte) { present = false }), add_word address page_size)

unfoldable pub unmap_level2 : PageTables → (address : ℕ) → Option ℕ → PageTables × ℕ
unmap_level2 s address none = (s, add_word address (next_multiple address huge_page_size))
unmap_level2 s address (some l2) =
    let pdte = (get_address_parts address).pdte in
    let pde = s.entries l2 pdte in
    if not pde.present
    then (s, add_word address (next_multiple address large_page_size))
    else if pde.attribute
    then (reclaim_2m s l2 pdte, next_multiple address large_page_size)
    else unmap_page s address (find_page_table s l2 pdte)

unfoldable pub unmap_level3 : PageTables → (address : ℕ) → Option ℕ → PageTables × ℕ
unmap_level3 s address none = (s, add_word address (next_multiple address pml4_memory_size))
unmap_level3 s address (some l3) =
    unmap_level2 s address (find_page_map2 s l3 (get_address_parts address).pdpte)

unfoldable pub unmap_step : PageTables → (address : ℕ) → PageTables × ℕ
unmap_step s address =
    unmap_level3 s address (find_page_map3 s s.root (get_address_parts address).pml4e)

unfoldable pub unmap_unlocked : (fuel : ℕ) → PageTables → (back address : ℕ) → Option PageTables
unmap_unlocked zero s back address = none
unmap_unlocked (suc fuel) s back address =
    let (s', next) = unmap_step s address in
    let rest = unmap_unlocked fuel s' back next in if ltb address back then rest else some s
