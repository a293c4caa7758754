-- ===== src/PageTables/Tests.antt =====
-- The page tables at concrete inputs.
use bez_os.PageTables.UnmapRange.{unmap_unlocked_lem, is_regular}
use bez_os.PageTables.Unmap.{unmap_unlocked}
use bez_os.PageTables.Compaction.{get_backing_address-compact}
use bez_os.PageTables.Compact.{compact}
use bez_os.PageTables.Whole.{map_with_list_lem, map2m_lem}
use bez_os.PageTables.Mapping.{map4k_lem, map4k-IsTree}
use bez_os.Range.{add_word, word, range}
use bez_os.PageTables.Place.{Maps}
use bez_os.PageTables.Backing.{pte_of, get_backing_address_lem}
use bez_os.PageTables.Walk.{page_size_of, walk_unlocked, PageSize, get_backing_address}
use bez_os.PageTables.Map.{map4k, map_with_list, map2m}
use bez_os.PageTables.Tree.{IsTree, AreFree, resolve}
use bez_os.TableList.{PageTableAllocation, page_size}
use bez_os.PageTables.{PageTables}
use bez_os.FlatMap
use bez_os.Range.{size}
use bez_os.Range.Pair.{roundup, rounddown}
use bez_os.LargePage.{
  get_covered_segments, AddressMapping, max_pages_for_mapping, mapping, large_page_size,
}
use bez_os.LookupTable.{find, find_place, LookupTable, invalid}
use bez_os.PageEntry.{
  Entry, PageFlags, PageBuilder, masked, no_entry, max_physical_address, MemoryType,
}
use bez_os.Prelude.{
  ◌==◌, if◌then◌else◌, Bool-cases, length, ℕ, ◌+◌, ◌-◌, ◌*◌, ◌%◌, ◌^◌, ◌≤◌, ◌<◌, ◌≡◌, refl, ◌≢◌,
  ◌⊎◌, inl, inr, true, false, ◌&&◌, not, none, some, List, [], ◌∷◌, arith,
}

-- Sixteen pages of page table memory at the physical address 65536; the first one is the root.
abbrev pool : ℕ
pool = 134217728

abbrev pool_cache : LookupTable
pool_cache = record {
  keys = λ i. 65536;
  values = λ i. record { vaddr = pool; count = 16; refs = 0 };
  capacity = 4;
  count = 1;
}

abbrev kernel_flags : PageFlags
kernel_flags = record { read = true; write = true; execute = true; user = false }

abbrev data_flags : PageFlags
data_flags = record { read = true; write = true; execute = false; user = false }

abbrev builder : PageBuilder
builder = record {
  paddr_bits = 48;
  vaddr_bits = 48;
  layout = record {
    deferred = 2;
    uncached = 3;
    write_combined = 1;
    write_through = 5;
    write_protect = 4;
    write_back = 0;
  };
}

abbrev empty_tables : PageTables
empty_tables = record {
  builder = builder;
  entries = λ t i. no_entry;
  cache = pool_cache;
  root = pool;
  freed = [];
  middle_flags = kernel_flags;
}

-- The page `i` of the pool.
abbrev pool_page : ℕ → PageTableAllocation
pool_page i = record { block = pool + i * page_size; slide = pool - 65536 }

abbrev free_pages : List PageTableAllocation
free_pages =
    pool_page 1
    ∷ pool_page 2
    ∷ pool_page 3
    ∷ pool_page 4
    ∷ pool_page 5
    ∷ pool_page 6
    ∷ pool_page 7
    ∷ []

abbrev root_only : ℕ → ℕ
root_only t = if t == pool then 4 else 0

abbrev no_prefix : ℕ → ℕ
no_prefix t = 0

empty_tables-IsTree : IsTree empty_tables root_only no_prefix
empty_tables-IsTree = record {
  root_level = refl;
  root_prefix = refl;
  leads = λ t i k lev lt there small. absurd (ground (arith, there));
  top = λ t i lev. refl;
  blank = λ t i k lev absent. refl;
}

free_pages-AreFree : AreFree empty_tables root_only free_pages
unfolding find find_place FlatMap.is_empty masked max_physical_address FlatMap.lower_bound
free_pages-AreFree = (
  refl,
  refl,
  refl,
  refl,
  omega arith,
  (
    refl,
    refl,
    refl,
    refl,
    omega arith,
    (
      refl,
      refl,
      refl,
      refl,
      omega arith,
      (
        refl,
        refl,
        refl,
        refl,
        omega arith,
        (
          refl,
          refl,
          refl,
          refl,
          omega arith,
          (refl, refl, refl, refl, omega arith, (refl, refl, refl, refl, omega arith, tt)),
        ),
      ),
    ),
  ),
)

-- The mask leaves room for the addresses used.
fits : 12288 ≤ max_physical_address builder
unfolding max_physical_address
fits = omega arith

below_word : max_physical_address builder < word
unfolding max_physical_address
below_word = omega arith

-- The pages behind 0xffff_8000_0000_1000, in the higher half, and another address.
abbrev higher : ℕ
higher = 18446603336221200384

map4k_lem_example :
    (s' : PageTables) × (left : List PageTableAllocation) × (map4k
        (empty_tables, free_pages)
        12288
        higher
        data_flags
        MemoryType.write_back
      ≡ some (s', left))
    × (page_size_of (walk_unlocked s' higher) ≡ PageSize.regular)
    × ((e : Entry) × (pte_of (walk_unlocked s' higher) ≡ some e)
        × Maps builder e data_flags MemoryType.write_back 12288)
    × (get_backing_address s' (higher + 5) ≡ add_word (masked builder 12288) ((higher + 5) % 4096))
map4k_lem_example =
    map4k_lem empty_tables root_only no_prefix free_pages higher 12288 (higher + 5) data_flags
      MemoryType.write_back empty_tables-IsTree free_pages-AreFree (omega arith) refl fits

map4k-IsTree_example :
    (s' : PageTables) × (left : List PageTableAllocation) × (levels' prefixes' : ℕ → ℕ) × (map4k
        (empty_tables, free_pages)
        12288
        higher
        data_flags
        MemoryType.write_back
      ≡ some (s', left))
    × IsTree s' levels' prefixes'
    × AreFree s' levels' left
    × (7 ≡ length left + 3)
map4k-IsTree_example =
    map4k-IsTree empty_tables root_only no_prefix free_pages higher 12288 data_flags
      MemoryType.write_back empty_tables-IsTree free_pages-AreFree (omega arith) refl fits

-- Two pages.
abbrev two_pages : AddressMapping
two_pages = mapping higher 4096 8192

reserved : max_pages_for_mapping (range higher (higher + 8192)) ≤ 7
unfolding max_pages_for_mapping get_covered_segments roundup rounddown size
reserved = omega arith

-- 514 pages around one of 2 MiB.
abbrev large_mapping : AddressMapping
large_mapping = mapping 18446603336223289344 2093056 2105344

large_reserved : max_pages_for_mapping (range 18446603336223289344 18446603336225394688) ≤ 7
unfolding max_pages_for_mapping get_covered_segments roundup rounddown size
large_reserved = omega arith

large_fits : 4198400 ≤ max_physical_address builder
unfolding max_physical_address
large_fits = omega arith

mask_room : max_physical_address builder + large_page_size ≤ word
unfolding max_physical_address
mask_room = omega arith

map_with_list_lem_example :
    (s' : PageTables) × (left : List PageTableAllocation) × (map_with_list 515
        (empty_tables, free_pages)
        large_mapping
        data_flags
        MemoryType.write_back
      ≡ some (s', left))
    × (get_backing_address s' 18446603336223293445 ≡ 2097157)
map_with_list_lem_example =
    map_with_list_lem empty_tables root_only no_prefix free_pages large_mapping data_flags
      MemoryType.write_back 513 515 18446603336223293445 empty_tables-IsTree free_pages-AreFree refl
      refl refl (omega arith) (omega arith) large_fits mask_room (λ q lo hi. refl) large_reserved
      (omega arith)

map2m_lem_example :
    (s' : PageTables) × (left : List PageTableAllocation) × (map2m
        (empty_tables, free_pages)
        4194304
        4194304
        data_flags
        MemoryType.write_back
      ≡ some (s', left))
    × (page_size_of (walk_unlocked s' 4194304) ≡ PageSize.large)
    × (get_backing_address s' 4194309 ≡ 4194309)
map2m_lem_example =
    map2m_lem empty_tables root_only no_prefix free_pages 4194304 4194304 4194309 data_flags
      MemoryType.write_back empty_tables-IsTree free_pages-AreFree (omega arith) refl refl
      (omega (arith, large_fits)) mask_room

-- The second page of the pool is an empty table under the first entry of the root.
abbrev table_entry : Entry
table_entry = record no_entry { present = true; address = 69632 }

abbrev one_table : PageTables
one_table = record empty_tables {
  entries = λ t i. if (t == pool) && (i == 0) then table_entry else no_entry;
}

abbrev two_levels : ℕ → ℕ
two_levels t = if t == pool then 4 else if t == pool + 4096 then 3 else 0

second_page : find pool_cache 69632 ≡ pool + 4096
unfolding find find_place FlatMap.is_empty FlatMap.lower_bound
second_page = refl

one_table-IsTree : IsTree one_table two_levels no_prefix
one_table-IsTree = record {
  root_level = refl;
  root_prefix = refl;
  leads = λ t i k lev lt there small. elim (Bool-cases ((t == pool) && (i == 0))) [
    | inr off ↦ absurd (ground (arith, there, off))
    | inl on ↦
        let top : (t == pool) ≡ true = ground (arith, on) in
        let level : k ≡ 2 = ground (arith, lev, top) in
        let first : i ≡ 0 = ground (arith, on) in rw (on, second_page, level, first) (refl, refl)
  ];
  top = λ t i lev. elim (Bool-cases ((t == pool) && (i == 0))) [
    | inr off ↦ rw off refl
    | inl on ↦ rw on refl
  ];
  blank = λ t i k lev absent. elim (Bool-cases ((t == pool) && (i == 0))) [
    | inr off ↦ rw off refl
    | inl on ↦ rw on refl
  ];
}

-- A page of 1 GiB, at the physical address 2^30, under the first entry of the second table.
abbrev huge_entry : Entry
huge_entry = record no_entry { present = true; attribute = true; address = 2 ^ 30 }

abbrev huge_page : PageTables
huge_page = record empty_tables {
  entries = λ t i.
      if (t == pool) && (i == 0)
      then table_entry
      else if (t == pool + 4096) && (i == 0)
      then huge_entry
      else no_entry;
}

huge_page-IsTree : IsTree huge_page two_levels no_prefix
huge_page-IsTree = record {
  root_level = refl;
  root_prefix = refl;
  leads = λ t i k lev lt there small. elim (Bool-cases ((t == pool) && (i == 0))) [
    | inr off ↦ elim (Bool-cases ((t == pool + 4096) && (i == 0))) [
      | inr neither ↦ absurd (ground (arith, there, off, neither))
      | inl large ↦ absurd (ground (arith, small, off, large))
    ]
    | inl on ↦
        let top : (t == pool) ≡ true = ground (arith, on) in
        let level : k ≡ 2 = ground (arith, lev, top) in
        let first : i ≡ 0 = ground (arith, on) in rw (on, second_page, level, first) (refl, refl)
  ];
  top = λ t i lev. elim (Bool-cases (t == pool)) [
    | inl root ↦ ground (arith, root)
    | inr other ↦ absurd (ground (arith, lev, other))
  ];
  blank = λ t i k lev absent. elim (Bool-cases ((t == pool) && (i == 0))) [
    | inr off ↦ elim (Bool-cases ((t == pool + 4096) && (i == 0))) [
      | inr neither ↦ rw (off, neither) refl
      | inl large ↦ absurd (ground (arith, absent, off, large))
    ]
    | inl on ↦ rw on refl
  ];
}

-- The address 4 MiB and 5 bytes into the page: the code reads it as 5 bytes into the page.
get_backing_address_lem_example :
    (((PageSize.huge ≢ PageSize.huge)
        × (get_backing_address huge_page 4194309 ≡ 1073741824 + 4194309))
      ⊎ ((PageSize.huge ≡ PageSize.huge)
          × (get_backing_address huge_page 4194309 ≡ 1073741824 + 5)))
    × (page_size_of (walk_unlocked huge_page 4194309) ≡ PageSize.huge)
    × (pte_of (walk_unlocked huge_page 4194309) ≡ none)
unfolding find FlatMap.is_empty
get_backing_address_lem_example =
    get_backing_address_lem huge_page two_levels no_prefix 4194309 huge_page-IsTree

get_backing_address-compact_example :
    IsTree (compact one_table).0 two_levels no_prefix
    × (get_backing_address (compact one_table).0 4096 ≡ get_backing_address one_table 4096)
    × (page_size_of (walk_unlocked (compact one_table).0 4096)
        ≡ page_size_of (walk_unlocked one_table 4096))
get_backing_address-compact_example =
    get_backing_address-compact one_table two_levels no_prefix 4096 one_table-IsTree

-- The entries that map the page 0 to the physical address 4096.
abbrev mapped_entries : ℕ → ℕ → Entry
mapped_entries t i =
    if not (i == 0)
    then no_entry
    else if t == pool
    then table_entry
    else if t == pool + 4096
    then record no_entry { present = true; address = 73728 }
    else if t == pool + 8192
    then record no_entry { present = true; address = 77824 }
    else if t == pool + 12288
    then record no_entry { present = true; address = 4096 }
    else no_entry

abbrev one_page : PageTables
one_page = record empty_tables { entries = mapped_entries }

abbrev four_levels : ℕ → ℕ
four_levels t =
    if t == pool
    then 4
    else if t == pool + 4096
    then 3
    else if t == pool + 8192
    then 2
    else if t == pool + 12288
    then 1
    else 0

third_page : find pool_cache 73728 ≡ pool + 8192
unfolding find find_place FlatMap.is_empty FlatMap.lower_bound
third_page = refl

fourth_page : find pool_cache 77824 ≡ pool + 12288
unfolding find find_place FlatMap.is_empty FlatMap.lower_bound
fourth_page = refl

one_page-small : (t i : ℕ) → (mapped_entries t i).attribute ≡ false
one_page-small t i = elim (Bool-cases (i == 0)) [
  | inr off ↦ rw off refl
  | inl on ↦ elim (Bool-cases (t == pool)) [
    | inl a ↦ rw (on, a) refl
    | inr na ↦ elim (Bool-cases (t == pool + 4096)) [
      | inl b ↦ rw (on, na, b) refl
      | inr nb ↦ elim (Bool-cases (t == pool + 8192)) [
        | inl c ↦ rw (on, na, nb, c) refl
        | inr nc ↦ elim (Bool-cases (t == pool + 12288)) [
          | inl d ↦ rw (on, na, nb, nc, d) refl
          | inr nd ↦ rw (on, na, nb, nc, nd) refl
        ]
      ]
    ]
  ]
]

first_regular : is_regular (resolve 3 one_page pool 0) ≡ true
unfolding find find_place FlatMap.is_empty FlatMap.lower_bound
first_regular = refl

one_page-IsTree : IsTree one_page four_levels no_prefix
one_page-IsTree = record {
  root_level = refl;
  root_prefix = refl;
  leads = λ t i k lev lt there small. elim (Bool-cases (i == 0)) [
    | inr off ↦ absurd (ground (arith, there, off))
    | inl on ↦
        let first : i ≡ 0 = ground (arith, on) in
        elim (Bool-cases (t == pool)) [
          | inl a ↦
              let level : k ≡ 2 = ground (arith, lev, a) in
              rw (on, a, second_page, level, first) (refl, refl)
          | inr na ↦ elim (Bool-cases (t == pool + 4096)) [
            | inl b ↦
                let level : k ≡ 1 = ground (arith, lev, na, b) in
                rw (on, na, b, third_page, level, first) (refl, refl)
            | inr nb ↦ elim (Bool-cases (t == pool + 8192)) [
              | inl c ↦
                  let level : k ≡ 0 = ground (arith, lev, na, nb, c) in
                  rw (on, na, nb, c, fourth_page, level, first) (refl, refl)
              | inr nc ↦ absurd (ground (arith, lev, na, nb, nc))
            ]
          ]
        ]
  ];
  top = λ t i lev. one_page-small t i;
  blank = λ t i k lev absent. one_page-small t i;
}

unmap_unlocked_lem_example :
    (s' : PageTables) × (unmap_unlocked 2 one_page 4096 0 ≡ some s')
    × IsTree s' four_levels no_prefix
    × (get_backing_address s' 5 ≡ invalid)
unmap_unlocked_lem_example =
    unmap_unlocked_lem one_page four_levels no_prefix 0 1 2 5 one_page-IsTree refl (omega arith)
      (omega arith) (λ q lo hi. let zeroth : q ≡ 0 = omega (arith, hi) in rw zeroth first_regular)
      (omega arith)
