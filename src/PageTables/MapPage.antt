-- ===== src/PageTables/MapPage.antt =====
-- What `map4k` does to the mapping of every page.
use bez_os.PageTables.Kept.{Kept, Reached}
use bez_os.PageTables.Step.{Stepped, get_page_map-Stepped}
use bez_os.PageTables.Place.{Maps, Places, set_page-Places, AreFree-placed}
use bez_os.PageTables.Chain.{
  is_small, small-Stepped, small_entry, Kept-trans, Reached-kept, resolve-Reached, Reached-placed,
  missing-Reached,
}
use bez_os.PageTables.Tree.{high, IsTree, AreFree, resolve, resolve-frame, missing}
use bez_os.TableList.{PageTableAllocation}
use bez_os.PageTables.Map.{get_page_table, Tables, map4k, set_page}
use bez_os.PageTables.{get_address_parts, PageTables, get_page_map}
use bez_os.PageEntry.{Entry, PageFlags, MemoryType, max_physical_address}
use bez_os.Prelude.{
  length, ℕ, suc, ◌+◌, ◌/◌, ◌%◌, ◌≤◌, ◌<◌, ◌≡◌, refl, sym, ◌∙◌, ◌≢◌, true, false, Option, some,
  List, arith,
}

-- The page of an address: the bits of it that the tables look at.
abbrev pub page_of : ℕ → ℕ
page_of address = address / 4096 % 68719476736

pub parts_of :
    (vaddr : ℕ)
    → ((get_address_parts vaddr).pml4e ≡ high 3 (page_of vaddr) % 512)
      × ((get_address_parts vaddr).pdpte ≡ high 2 (page_of vaddr) % 512)
      × ((get_address_parts vaddr).pdte ≡ high 1 (page_of vaddr) % 512)
      × ((get_address_parts vaddr).pte ≡ page_of vaddr % 512)
parts_of vaddr = (omega arith, omega arith, omega arith, omega arith)

pub parts_at :
    (vaddr page : ℕ)
    → page_of vaddr ≡ page
    → ((get_address_parts vaddr).pml4e ≡ high 3 page % 512)
      × ((get_address_parts vaddr).pdpte ≡ high 2 page % 512)
      × ((get_address_parts vaddr).pdte ≡ high 1 page % 512)
      × ((get_address_parts vaddr).pte ≡ page % 512)
parts_at vaddr page e = (omega (arith, e), omega (arith, e), omega (arith, e), omega (arith, e))

-- Where no large page is in the way, the last table is found as the others are.
get_page_table-small :
    (s : PageTables) (vaddr l2 index : ℕ) (buffer : List PageTableAllocation)
    → (s.entries l2 index).attribute ≡ false
    → get_page_table s vaddr l2 index buffer ≡ get_page_map s l2 index buffer
unfolding get_page_table get_page_map
get_page_table-small s vaddr l2 index buffer small = rw small refl

map4k-steps :
    (s s1 s2 s3 s4 : PageTables) (b b1 b2 b3 : List PageTableAllocation) (l3 l2 pt paddr vaddr : ℕ)
    (flags : PageFlags) (type : MemoryType)
    → get_page_map s s.root (get_address_parts vaddr).pml4e b ≡ some (l3, s1, b1)
    → get_page_map s1 l3 (get_address_parts vaddr).pdpte b1 ≡ some (l2, s2, b2)
    → get_page_table s2 vaddr l2 (get_address_parts vaddr).pdte b2 ≡ some (pt, s3, b3)
    → set_page s3 pt (get_address_parts vaddr).pte flags type paddr ≡ some s4
    → map4k (s, b) paddr vaddr flags type ≡ some (s4, b3)
unfolding map4k
map4k-steps s s1 s2 s3 s4 b b1 b2 b3 l3 l2 pt paddr vaddr flags type e1 e2 e3 e4 =
    rw (e1, e2, e3, e4) refl

-- The tables after `map4k`.
pub record Mapped (s : PageTables) (levels prefixes : ℕ → ℕ) (buffer : List PageTableAllocation)
    (page paddr : ℕ) (flags : PageFlags) (type : MemoryType) (result : Option Tables) : Type 0 where
  pub tables : PageTables
  pub left : List PageTableAllocation
  pub levels' : ℕ → ℕ
  pub prefixes' : ℕ → ℕ
  pub returns : result ≡ some (tables, left)
  pub tree : IsTree tables levels' prefixes'
  pub free : AreFree tables levels' left
  pub taken : length buffer ≡ length left + missing 3 s s.root page
  pub complete : missing 3 tables tables.root page ≡ 0
  pub builder_kept : tables.builder ≡ s.builder
  pub root_kept : tables.root ≡ s.root
  pub entry : Entry
  pub resolved : resolve 3 tables tables.root page ≡ some (0, entry)
  pub maps : Maps s.builder entry flags type paddr
  pub others :
      (other : ℕ)
      → other < 68719476736
      → other ≢ page
      → resolve 3 tables tables.root other ≡ resolve 3 s s.root other

module _ (s : PageTables) (levels prefixes : ℕ → ℕ) (buffer : List PageTableAllocation)
    (vaddr page paddr : ℕ) (flags : PageFlags) (type : MemoryType) (is_page : page_of vaddr ≡ page)
    (tree : IsTree s levels prefixes) (free : AreFree s levels buffer)
    (enough : missing 3 s s.root page ≤ length buffer)
    (small : is_small (resolve 3 s s.root page) ≡ true)
    (fits : paddr ≤ max_physical_address s.builder) where
  step3 :
      Stepped s levels prefixes buffer s.root 2 page
        (get_page_map s s.root (high 3 page % 512) buffer)
  step3 =
      get_page_map-Stepped s levels prefixes buffer s.root 2 page tree free tree.root_level
        (omega (arith, tree.root_prefix)) (tree.top s.root (high 3 page % 512) tree.root_level)
        enough

  small2 : is_small (resolve 2 step3.tables step3.table page) ≡ true
  small2 = small-Stepped s levels prefixes buffer s.root 2 page _ step3 tree.root_level small

  step2 :
      Stepped step3.tables step3.levels' step3.prefixes' step3.left step3.table 1 page
        (get_page_map step3.tables step3.table (high 2 page % 512) step3.left)
  step2 =
      get_page_map-Stepped step3.tables step3.levels' step3.prefixes' step3.left step3.table 1 page
        step3.tree step3.free step3.reached.level step3.reached.prefix
        (small_entry step3.tables step3.levels' step3.prefixes' step3.table 1 page step3.tree
          step3.reached.level small2)
        (omega (arith, enough, step3.taken))

  small1 : is_small (resolve 1 step2.tables step2.table page) ≡ true
  small1 =
      small-Stepped step3.tables step3.levels' step3.prefixes' step3.left step3.table 1 page _ step2
        step3.reached.level small2

  last_small : (step2.tables.entries step2.table (high 1 page % 512)).attribute ≡ false
  last_small =
      small_entry step2.tables step2.levels' step2.prefixes' step2.table 0 page step2.tree
        step2.reached.level small1

  step1 :
      Stepped step2.tables step2.levels' step2.prefixes' step2.left step2.table 0 page
        (get_page_map step2.tables step2.table (high 1 page % 512) step2.left)
  step1 =
      get_page_map-Stepped step2.tables step2.levels' step2.prefixes' step2.left step2.table 0 page
        step2.tree step2.free step2.reached.level step2.reached.prefix last_small
        (omega (arith, enough, step3.taken, step2.taken))

  kept : Kept s step1.tables levels step1.levels' prefixes step1.prefixes'
  kept =
      Kept-trans _ _ _ _ _ _ _ _ _ step3.kept (Kept-trans _ _ _ _ _ _ _ _ _ step2.kept step1.kept)

  placed :
      Places step1.tables step1.levels' step1.prefixes' step1.table page paddr flags type
        (set_page step1.tables step1.table (page % 512) flags type paddr)
  placed =
      set_page-Places step1.tables step1.levels' step1.prefixes' step1.table page paddr flags type
        step1.tree step1.reached.level (rw kept.builder_kept fits)

  run : map4k (s, buffer) paddr vaddr flags type ≡ some (placed.tables, step1.left)
  run =
      map4k-steps s step3.tables step2.tables step1.tables placed.tables buffer step3.left
        step2.left step1.left step3.table step2.table step1.table paddr vaddr flags type
        (rw (parts_at vaddr page is_page).0 step3.returns)
        (rw (parts_at vaddr page is_page).1 step2.returns)
        (rw (parts_at vaddr page is_page).2 (
          get_page_table-small step2.tables vaddr step2.table (high 1 page % 512) step2.left
            last_small
          ∙ step1.returns))
        (rw (parts_at vaddr page is_page).3 placed.returns)

  others :
      (other : ℕ)
      → other < 68719476736
      → other ≢ page
      → resolve 3 placed.tables s.root other ≡ resolve 3 s s.root other
  others other lt ne =
      let lev =
        kept.levels_kept s.root (λ e. omega (arith, e, tree.root_level)) ∙ tree.root_level in
      let pre =
        kept.prefixes_kept s.root (λ e. omega (arith, e, tree.root_level)) ∙ tree.root_prefix in
      resolve-frame step1.tables placed.tables step1.levels' step1.prefixes' step1.tree
        placed.find_kept step1.table (page % 512) 0 step1.reached.level placed.others 3 s.root other
        lev (omega (arith, pre, lt)) (λ e. ne (omega (arith, e, step1.reached.prefix)))
      ∙ kept.resolve_kept 3 s.root other tree.root_level

  root_level : step3.levels' s.root ≡ 4
  root_level =
      step3.kept.levels_kept s.root (λ e. omega (arith, e, tree.root_level)) ∙ tree.root_level

  reached3 : Reached step1.tables step1.levels' step1.prefixes' s.root 2 page step3.table
  reached3 =
      Reached-kept step3.tables step1.tables step3.levels' step1.levels' step3.prefixes'
        step1.prefixes' s.root 2 page step3.table
        (Kept-trans _ _ _ _ _ _ _ _ _ step2.kept step1.kept) root_level step3.reached

  reached2 : Reached step1.tables step1.levels' step1.prefixes' step3.table 1 page step2.table
  reached2 =
      Reached-kept step2.tables step1.tables step2.levels' step1.levels' step2.prefixes'
        step1.prefixes' step3.table 1 page step2.table step1.kept
        (step2.kept.levels_kept step3.table (λ e. omega (arith, e, step3.reached.level))
          ∙ step3.reached.level)
        step2.reached

  below :
      (t0 k t1 : ℕ)
      → Reached step1.tables step1.levels' step1.prefixes' t0 k page t1
      → step1.levels' t0 ≡ suc (suc k)
      → Reached placed.tables step1.levels' step1.prefixes' t0 k page t1
  below t0 k t1 r lev =
      Reached-placed step1.tables step1.levels' step1.prefixes' t0 k page t1 step1.table paddr flags
        type _ placed step1.reached.level lev r

  last_root : step1.levels' s.root ≡ 4
  last_root = kept.levels_kept s.root (λ e. omega (arith, e, tree.root_level)) ∙ tree.root_level

  placed3 : Reached placed.tables step1.levels' step1.prefixes' s.root 2 page step3.table
  placed3 = below s.root 2 step3.table reached3 last_root

  placed2 : Reached placed.tables step1.levels' step1.prefixes' step3.table 1 page step2.table
  placed2 = below step3.table 1 step2.table reached2 reached3.level

  placed1 : Reached placed.tables step1.levels' step1.prefixes' step2.table 0 page step1.table
  placed1 = below step2.table 0 step1.table step1.reached reached2.level

  complete : missing 3 placed.tables s.root page ≡ 0
  complete =
      missing-Reached placed.tables step1.levels' step1.prefixes' s.root 2 page step3.table placed3
      ∙ missing-Reached placed.tables step1.levels' step1.prefixes' step3.table 1 page step2.table
          placed2
      ∙ missing-Reached placed.tables step1.levels' step1.prefixes' step2.table 0 page step1.table
          placed1

  resolved :
      resolve 3 placed.tables s.root page ≡ some (0, placed.tables.entries step1.table (page % 512))
  resolved =
      resolve-Reached placed.tables step1.levels' step1.prefixes' s.root 2 page step3.table placed3
      ∙ resolve-Reached placed.tables step1.levels' step1.prefixes' step3.table 1 page step2.table
          placed2
      ∙ resolve-Reached placed.tables step1.levels' step1.prefixes' step2.table 0 page step1.table
          placed1
      ∙ rw placed.maps.present refl

  pub map4k-Mapped :
      Mapped s levels prefixes buffer page paddr flags type
        (map4k (s, buffer) paddr vaddr flags type)
  map4k-Mapped = record {
    tables = placed.tables;
    left = step1.left;
    levels' = step1.levels';
    prefixes' = step1.prefixes';
    returns = run;
    tree = placed.tree;
    free =
        AreFree-placed step1.tables placed.tables step1.levels' step1.left placed.builder_kept
          placed.find_kept step1.free;
    taken = omega (arith, step3.taken, step2.taken, step1.taken);
    complete = rw (placed.root_kept, kept.root_kept) complete;
    builder_kept = placed.builder_kept ∙ kept.builder_kept;
    root_kept = placed.root_kept ∙ kept.root_kept;
    entry = placed.tables.entries step1.table (page % 512);
    resolved = rw (placed.root_kept, kept.root_kept) resolved;
    maps = rw (sym kept.builder_kept) placed.maps;
    others = rw (placed.root_kept, kept.root_kept) others;
  }
