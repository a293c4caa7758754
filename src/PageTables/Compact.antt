-- ===== src/PageTables/Compact.antt =====
-- Freeing empty tables: `compactPt`, `compactPd`, `compactPdpt` and `compactPml4`.
use bez_os.PageTables.{PageTables, deallocate, as_virtual, set_entry}
use bez_os.Prelude.{if◌then◌else◌, ℕ, zero, suc, ◌+◌, Bool, true, false, not}

-- Whether none of the first `n` entries of a table is present. `IsTableEmpty` asks for all 512.
unfoldable pub is_table_empty : ℕ → PageTables → ℕ → Bool
is_table_empty zero s t = true
is_table_empty (suc n) s t =
    let rest = is_table_empty n s t in if (s.entries t n).present then false else rest

-- The table under an entry is freed, and the entry is no longer present.
unfoldable pub free_table : PageTables → (table index : ℕ) → PageTables
free_table s table index =
    let e = s.entries table index in
    let s' = deallocate s (as_virtual s e.address) e.address in
    set_entry s' table index (record (s'.entries table index) { present = false })

-- The tables and how many were freed.
unfoldable pub compact_pt : PageTables → (pd index : ℕ) → PageTables × ℕ
compact_pt s pd index =
    let e = s.entries pd index in
    if not e.present
    then (s, 0)
    else if e.attribute
    then (s, 0)
    else if is_table_empty 512 s (as_virtual s e.address)
    then (free_table s pd index, 1)
    else (s, 0)

-- The loop of `compactPd` and `compactPdpt` over the entries of a table from `i` on, with that many left:
-- the tables, how many were freed, and whether none of the entries is left present.
unfoldable pub compact_loop :
    (PageTables → (table index : ℕ) → PageTables × ℕ)
    → (left : ℕ) → PageTables
    → (table i count : ℕ) → (reclaim : Bool) → PageTables × ℕ × Bool
compact_loop compact_one zero s table i count reclaim = (s, count, reclaim)
compact_loop compact_one (suc left) s table i count reclaim =
    let (s', freed) = compact_one s table i in
    compact_loop compact_one left s' table (i + 1) (count + freed)
      (if (s'.entries table i).present then false else reclaim)

-- What both do with the table under an entry that is there.
unfoldable pub compact_under :
    (PageTables → (table index : ℕ) → PageTables × ℕ)
    → PageTables
    → (table index : ℕ) → PageTables × ℕ
compact_under compact_one s table index =
    let e = s.entries table index in
    let (s', count, reclaim) = compact_loop compact_one 512 s (as_virtual s e.address) 0 0 true in
    if reclaim then (free_table s' table index, count + 1) else (s', count)

unfoldable pub compact_pd : PageTables → (table index : ℕ) → PageTables × ℕ
compact_pd s table index =
    let e = s.entries table index in
    let below = compact_under compact_pt s table index in
    if not e.present then (s, 0) else if e.attribute then (s, 0) else below

unfoldable pub compact_pdpt : PageTables → (table index : ℕ) → PageTables × ℕ
compact_pdpt s table index =
    let below = compact_under compact_pd s table index in
    if not (s.entries table index).present then (s, 0) else below

-- `compactPml4`, from the entry `i` of the root on.
unfoldable pub compact_pml4 : (left : ℕ) → PageTables → (i count : ℕ) → PageTables × ℕ
compact_pml4 zero s i count = (s, count)
compact_pml4 (suc left) s i count =
    let (s', freed) = compact_pdpt s s.root i in compact_pml4 left s' (i + 1) (count + freed)

-- `compact`
unfoldable pub compact : PageTables → PageTables × ℕ
compact s = compact_pml4 512 s 0 0
