-- ===== src/PageTables/MapBlock.antt =====
-- What `map2m` does to the mapping of every page.
use bez_os.PageTables.Place.{AreFree-placed}
use bez_os.PageTables.Kept.{Kept, Reached}
use bez_os.PageTables.Chain.{resolve-Reached, missing-Reached, Kept-trans, Reached-kept}
use bez_os.PageTables.Step.{Stepped, get_page_map-Stepped}
use bez_os.PageTables.LargeEntry.{is_not_huge, large-IsTree, not_huge_entry, resolve-large}
use bez_os.PageTables.MapLarge.{place_large, MapsLarge, PlacesLarge, place_large-PlacesLarge}
use bez_os.PageTables.MapPage.{page_of, parts_at}
use bez_os.PageTables.Tree.{IsTree, AreFree, missing, high, resolve, resolve-frame}
use bez_os.TableList.{PageTableAllocation}
use bez_os.PageTables.Map.{map2m, Tables}
use bez_os.PageTables.{PageTables, get_page_map, get_address_parts}
use bez_os.Prelude.{
  length, ℕ, suc, ◌+◌, ◌%◌, ◌≤◌, ◌<◌, ◌≡◌, refl, sym, ap, ◌∙◌, ◌≢◌, inl, true, Option, some, List,
  arith,
}
use bez_os.PageEntry.{Entry, PageFlags, MemoryType, max_physical_address}

-- The tables after `map2m`.
pub record Mapped2m (s : PageTables) (levels prefixes : ℕ → ℕ) (buffer : List PageTableAllocation)
    (page paddr : ℕ) (flags : PageFlags) (result : Option Tables) : Type 0 where
  pub tables : PageTables
  pub left : List PageTableAllocation
  pub levels' : ℕ → ℕ
  pub prefixes' : ℕ → ℕ
  pub returns : result ≡ some (tables, left)
  pub tree : IsTree tables levels' prefixes'
  pub free : AreFree tables levels' left
  pub taken : length buffer ≤ length left + missing 3 s s.root page
  pub complete : missing 3 tables tables.root page ≡ 0
  pub builder_kept : tables.builder ≡ s.builder
  pub root_kept : tables.root ≡ s.root
  pub entry : Entry
  pub resolved : (q : ℕ) → high 1 q ≡ high 1 page → resolve 3 tables tables.root q ≡ some (1, entry)
  pub maps : MapsLarge s.builder entry flags paddr
  pub others :
      (other : ℕ)
      → other < 68719476736
      → high 1 other ≢ high 1 page
      → resolve 3 tables tables.root other ≡ resolve 3 s s.root other

map2m-steps :
    (s s1 s2 s3 : PageTables) (b b1 b2 : List PageTableAllocation) (l3 l2 paddr vaddr : ℕ)
    (flags : PageFlags) (type : MemoryType)
    → get_page_map s s.root (get_address_parts vaddr).pml4e b ≡ some (l3, s1, b1)
    → get_page_map s1 l3 (get_address_parts vaddr).pdpte b1 ≡ some (l2, s2, b2)
    → place_large s2 l2 (get_address_parts vaddr).pdte flags type paddr ≡ some s3
    → map2m (s, b) paddr vaddr flags type ≡ some (s3, b2)
unfolding map2m
map2m-steps s s1 s2 s3 b b1 b2 l3 l2 paddr vaddr flags type e1 e2 e3 = rw (e1, e2, e3) refl

module _ (s : PageTables) (levels prefixes : ℕ → ℕ) (buffer : List PageTableAllocation)
    (vaddr page paddr : ℕ) (flags : PageFlags) (type : MemoryType) (is_page : page_of vaddr ≡ page)
    (tree : IsTree s levels prefixes) (free : AreFree s levels buffer)
    (enough : missing 3 s s.root page ≤ length buffer)
    (small : is_not_huge (resolve 3 s s.root page) ≡ true)
    (fits : paddr ≤ max_physical_address s.builder) where
  step3 :
      Stepped s levels prefixes buffer s.root 2 page
        (get_page_map s s.root (high 3 page % 512) buffer)
  step3 =
      get_page_map-Stepped s levels prefixes buffer s.root 2 page tree free tree.root_level
        (omega (arith, tree.root_prefix)) (tree.top s.root (high 3 page % 512) tree.root_level)
        enough

  small2 : is_not_huge (resolve 2 step3.tables step3.table page) ≡ true
  small2 =
      ap is_not_huge (
        sym (
          resolve-Reached step3.tables step3.levels' step3.prefixes' s.root 2 page step3.table
            step3.reached)
        ∙ step3.kept.resolve_kept 3 s.root page tree.root_level)
      ∙ small

  step2 :
      Stepped step3.tables step3.levels' step3.prefixes' step3.left step3.table 1 page
        (get_page_map step3.tables step3.table (high 2 page % 512) step3.left)
  step2 =
      get_page_map-Stepped step3.tables step3.levels' step3.prefixes' step3.left step3.table 1 page
        step3.tree step3.free step3.reached.level step3.reached.prefix
        (not_huge_entry step3.tables step3.levels' step3.prefixes' step3.table page step3.tree
          step3.reached.level small2)
        (omega (arith, enough, step3.taken))

  kept : Kept s step2.tables levels step2.levels' prefixes step2.prefixes'
  kept = Kept-trans _ _ _ _ _ _ _ _ _ step3.kept step2.kept

  placed :
      PlacesLarge step2.tables step2.levels' step2.prefixes' step2.table
        (high 1 page % 512)
        paddr
        flags
        (place_large step2.tables step2.table (high 1 page % 512) flags type paddr)
  placed =
      place_large-PlacesLarge step2.tables step2.levels' step2.prefixes' step2.table
        (high 1 page % 512) paddr flags type (rw kept.builder_kept fits)

  run : map2m (s, buffer) paddr vaddr flags type ≡ some (placed.tables, step2.left)
  run =
      map2m-steps s step3.tables step2.tables placed.tables buffer step3.left step2.left step3.table
        step2.table paddr vaddr flags type (rw (parts_at vaddr page is_page).0 step3.returns)
        (rw (parts_at vaddr page is_page).1 step2.returns)
        (rw (parts_at vaddr page is_page).2 placed.returns)

  last_root : step2.levels' s.root ≡ 4
  last_root = kept.levels_kept s.root (λ e. omega (arith, e, tree.root_level)) ∙ tree.root_level

  others :
      (other : ℕ)
      → other < 68719476736
      → high 1 other ≢ high 1 page
      → resolve 3 placed.tables s.root other ≡ resolve 3 s s.root other
  others other lt ne =
      let pre =
        kept.prefixes_kept s.root (λ e. omega (arith, e, tree.root_level)) ∙ tree.root_prefix in
      resolve-frame step2.tables placed.tables step2.levels' step2.prefixes' step2.tree
        placed.find_kept step2.table (high 1 page % 512) 1 step2.reached.level
        (λ t i lev. placed.others t i) 3 s.root other last_root (omega (arith, pre, lt))
        (λ e. ne (omega (arith, e, step2.reached.prefix)))
      ∙ kept.resolve_kept 3 s.root other tree.root_level

  below :
      (t0 k t1 : ℕ)
      → Reached step2.tables step2.levels' step2.prefixes' t0 (suc k) page t1
      → step2.levels' t0 ≡ suc (suc (suc k))
      → Reached placed.tables step2.levels' step2.prefixes' t0 (suc k) page t1
  below t0 k t1 r lev =
      let i = high (suc (suc k)) page % 512 in
      let same =
        placed.others t0 i (inl λ e. omega (arith, lev, step2.reached.level, ap step2.levels' e)) in
      record {
        level = r.level;
        prefix = r.prefix;
        there = rw same r.there;
        small = rw same r.small;
        points = rw (same, placed.find_kept (step2.tables.entries t0 i).address) r.points;
      }

  placed3 : Reached placed.tables step2.levels' step2.prefixes' s.root 2 page step3.table
  placed3 =
      below s.root 1 step3.table
        (Reached-kept step3.tables step2.tables step3.levels' step2.levels' step3.prefixes'
          step2.prefixes' s.root 2 page step3.table step2.kept
          (step3.kept.levels_kept s.root (λ e. omega (arith, e, tree.root_level)) ∙ tree.root_level)
          step3.reached)
        last_root

  placed2 : Reached placed.tables step2.levels' step2.prefixes' step3.table 1 page step2.table
  placed2 = below step3.table 0 step2.table step2.reached (
      step2.kept.levels_kept step3.table (λ e. omega (arith, e, step3.reached.level))
      ∙ step3.reached.level)

  entry : Entry
  entry = placed.tables.entries step2.table (high 1 page % 512)

  resolved : resolve 3 placed.tables s.root page ≡ some (1, entry)
  unfolding entry
  resolved =
      resolve-Reached placed.tables step2.levels' step2.prefixes' s.root 2 page step3.table placed3
      ∙ resolve-Reached placed.tables step2.levels' step2.prefixes' step3.table 1 page step2.table
          placed2
      ∙ rw (placed.maps.present, placed.maps.marked) refl

  complete : missing 3 placed.tables s.root page ≡ 0
  complete =
      missing-Reached placed.tables step2.levels' step2.prefixes' s.root 2 page step3.table placed3
      ∙ missing-Reached placed.tables step2.levels' step2.prefixes' step3.table 1 page step2.table
          placed2
      ∙ rw placed.maps.present refl

  pub map2m-Mapped2m :
      Mapped2m s levels prefixes buffer page paddr flags (map2m (s, buffer) paddr vaddr flags type)
  unfolding entry
  map2m-Mapped2m = record {
    tables = placed.tables;
    left = step2.left;
    levels' = step2.levels';
    prefixes' = step2.prefixes';
    returns = run;
    tree =
        large-IsTree step2.tables placed.tables step2.levels' step2.prefixes' step2.tree step2.table
          (high 1 page % 512) step2.reached.level placed.root_kept placed.find_kept
          placed.maps.present placed.maps.marked placed.others;
    free =
        AreFree-placed step2.tables placed.tables step2.levels' step2.left placed.builder_kept
          placed.find_kept step2.free;
    taken = omega (arith, step3.taken, step2.taken);
    complete = rw (placed.root_kept, kept.root_kept) complete;
    builder_kept = placed.builder_kept ∙ kept.builder_kept;
    root_kept = placed.root_kept ∙ kept.root_kept;
    entry = entry;
    resolved = λ q same.
        resolve-large 3 placed.tables placed.tables.root page q entry (sym same)
          (rw (placed.root_kept, kept.root_kept) resolved);
    maps = rw (sym kept.builder_kept) placed.maps;
    others = rw (placed.root_kept, kept.root_kept) others;
  }
