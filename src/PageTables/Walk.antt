-- ===== src/PageTables/Walk.antt =====
-- Reading the tables: `findPageMap3`, `findPageMap2`, `findPageTable`, `getBackingAddress`, `walk`,
-- and the size and flags of a walk.
use bez_os.Range.{add_word}
use bez_os.LookupTable.{invalid}
use bez_os.PageTables.{PageTables, PageWalkIndices, as_virtual, get_address_parts}
use bez_os.PageEntry.{Entry, PageFlags, no_entry}
use bez_os.Prelude.{if◌then◌else◌, ℕ, ◌*◌, ◌/◌, ◌%◌, true, false, ◌&&◌, not, Option, none, some}

-- These give `nullptr` as `none`.
unfoldable pub find_page_map3 : PageTables → (l4 index : ℕ) → Option ℕ
find_page_map3 s l4 index =
    let e = s.entries l4 index in if e.present then some (as_virtual s e.address) else none

unfoldable pub find_page_map2 : PageTables → (l3 index : ℕ) → Option ℕ
find_page_map2 s l3 index =
    let e = s.entries l3 index in
    if e.present && not e.attribute then some (as_virtual s e.address) else none

unfoldable pub find_page_table : PageTables → (l2 index : ℕ) → Option ℕ
find_page_table s l2 index =
    let e = s.entries l2 index in
    if e.present && not e.attribute then some (as_virtual s e.address) else none

-- The end of `getBackingAddressUnlocked`, in the table that `findPageTable` returned.
unfoldable pub pte_backing : PageTables → Option ℕ → (index offset : ℕ) → ℕ
pte_backing s none index offset = invalid
pte_backing s (some pt) index offset =
    let t1 = s.entries pt index in if not t1.present then invalid else add_word t1.address offset

-- `getBackingAddressUnlocked`. The masks are 0x3FF'000 for a page of 1 GiB, and 0x1FF'000 for one of 2 MiB.
unfoldable pub get_backing_address : PageTables → ℕ → ℕ
get_backing_address s address =
    let parts = get_address_parts address in
    let offset = address % 4096 in
    let t4 = s.entries s.root parts.pml4e in
    let l3 = as_virtual s t4.address in
    let t3 = s.entries l3 parts.pdpte in
    let l2 = as_virtual s t3.address in
    let t2 = s.entries l2 parts.pdte in
    let small = pte_backing s (find_page_table s l2 parts.pdte) parts.pte offset in
    if not t4.present
    then invalid
    else if not t3.present
    then invalid
    else if t3.attribute
    then add_word (add_word t3.address (address / 4096 % 1024 * 4096)) offset
    else if not t2.present
    then invalid
    else if t2.attribute
    then add_word (add_word t2.address (address / 4096 % 512 * 4096)) offset
    else small

pub record PageWalk : Type 0 where
  pub address : ℕ
  pub indices : PageWalkIndices
  pub pml4e : Entry
  pub pdpte : Entry
  pub pdte : Entry
  pub pte : Entry

-- An entry that is not reached is 0.
unfoldable pub walk_unlocked : PageTables → ℕ → PageWalk
walk_unlocked s address =
    let parts = get_address_parts address in
    let t4 = s.entries s.root parts.pml4e in
    let l3 = as_virtual s t4.address in
    let t3 = if t4.present then s.entries l3 parts.pdpte else no_entry in
    let l2 = as_virtual s t3.address in
    let t2 = if t3.present && not t3.attribute then s.entries l2 parts.pdte else no_entry in
    let pt = as_virtual s t2.address in
    let t1 = if t2.present && not t2.attribute then s.entries pt parts.pte else no_entry in
    record { address = address; indices = parts; pml4e = t4; pdpte = t3; pdte = t2; pte = t1 }

pub data PageSize : Type 0 where
  no_size : PageSize
  regular : PageSize
  large : PageSize
  huge : PageSize

unfoldable pub page_size_of : PageWalk → PageSize
page_size_of w =
    if w.pdpte.present && w.pdpte.attribute
    then huge
    else if w.pdte.present && w.pdte.attribute
    then large
    else if w.pte.present
    then regular
    else no_size

-- `PageFlags::eNone` and `PageFlags::eUserAll`
abbrev no_flags : PageFlags
no_flags = record { read = false; write = false; execute = false; user = false }

abbrev user_all : PageFlags
user_all = record { read = true; write = true; execute = true; user = true }

-- `applyFlags`
pub apply_flags : PageFlags → Entry → PageFlags
apply_flags flags entry = if not entry.present then flags else record flags {
  write = flags.write && entry.writeable;
  execute = flags.execute && not entry.execute_disable;
  user = flags.user && entry.user;
}

unfoldable pub flags_of : PageWalk → PageFlags
flags_of w =
    let f4 = apply_flags user_all w.pml4e in
    let f3 = apply_flags f4 w.pdpte in
    let f2 = apply_flags f3 w.pdte in
    if not w.pdpte.present
    then no_flags
    else if w.pdpte.attribute
    then f3
    else if not w.pdte.present
    then no_flags
    else if w.pdte.attribute
    then f2
    else if not w.pte.present
    then no_flags
    else apply_flags f2 w.pte
