-- ===== src/PageTables/MapLarge.antt =====
-- Writing the entry of a large page, as `map2m` does.
use bez_os.TableList.{PageTableAllocation}
use bez_os.PageTables.{PageTables, set_flags_at, deallocate, as_virtual}
use bez_os.LookupTable.{find, release, LookupTable}
use bez_os.LookupTable.Counts.{find-release}
use bez_os.PageEntry.{
  Entry, PageBuilder, PageFlags, set_entry_flags, masked, MemoryType, set_address,
  set_large_memory_type, max_physical_address, set_large_pat_entry,
}
use bez_os.Prelude.{
  ltb, ◌==◌, if◌then◌else◌, Bool-cases, ℕ, ◌≤◌, ◌≡◌, refl, ◌≢◌, ◌⊎◌, inl, inr, true, false, ◌&&◌,
  not, Option, some, List, arith,
}

-- The entry maps a page of 2 MiB at the physical address with these flags.
pub record MapsLarge (pm : PageBuilder) (e : Entry) (flags : PageFlags) (paddr : ℕ) : Type 0 where
  pub present : e.present ≡ true
  pub marked : e.attribute ≡ true
  pub address : e.address ≡ masked pm paddr
  pub writeable : e.writeable ≡ flags.write
  pub execute_disable : e.execute_disable ≡ not flags.execute
  pub user : e.user ≡ flags.user

-- What the write of a large page's entry in the table `l2` gives.
pub record PlacesLarge (s : PageTables) (levels prefixes : ℕ → ℕ) (l2 i paddr : ℕ)
    (flags : PageFlags) (result : Option PageTables) : Type 0 where
  pub tables : PageTables
  pub returns : result ≡ some tables
  pub builder_kept : tables.builder ≡ s.builder
  pub root_kept : tables.root ≡ s.root
  pub find_kept : (a : ℕ) → find tables.cache a ≡ find s.cache a
  pub maps : MapsLarge s.builder (tables.entries l2 i) flags paddr
  pub others : (t j : ℕ) → (t ≢ l2) ⊎ (j ≢ i) → tables.entries t j ≡ s.entries t j

-- The last step of `map2m`.
abbrev pub place_large : PageTables → (l2 i : ℕ) → PageFlags → MemoryType → ℕ → Option PageTables
place_large s l2 i flags type paddr =
    let t2 = s.entries l2 i in
    let s' =
      if t2.present && not t2.attribute
      then deallocate s (as_virtual s t2.address) t2.address
      else s in
    set_flags_at s' l2 i (set_large_memory_type s'.builder (record t2 { attribute = true }) type)
      flags paddr

write_large :
    (s : PageTables) (freed : List PageTableAllocation) (cache : LookupTable)
    (levels prefixes : ℕ → ℕ) (l2 i paddr : ℕ) (flags : PageFlags) (type : MemoryType)
    → ((a : ℕ) → find cache a ≡ find s.cache a)
    → paddr ≤ max_physical_address s.builder
    → PlacesLarge s levels prefixes l2 i paddr flags (
        set_flags_at
          (record s { freed = freed; cache = cache })
          l2
          i
          (set_large_memory_type s.builder (record (s.entries l2 i) { attribute = true }) type)
          flags
          paddr)
unfolding set_flags_at set_entry_flags set_address set_large_memory_type set_large_pat_entry
write_large s freed cache levels prefixes l2 i paddr flags type same_find fits =
    let under : ltb (max_physical_address s.builder) paddr ≡ false = ground (arith, fits) in
    let self : (l2 == l2) ≡ true = ground arith in
    let at : (i == i) ≡ true = ground arith in
    rw under record {
      tables = _;
      returns = refl;
      builder_kept = refl;
      root_kept = refl;
      find_kept = same_find;
      maps =
          rw (self, at)
            record {
              present = refl;
              marked = refl;
              address = refl;
              writeable = refl;
              execute_disable = refl;
              user = refl;
            };
      others = λ t j other. elim (Bool-cases (t == l2)) [
        | inr off ↦ rw off refl
        | inl on ↦
            let same : t ≡ l2 = ground arith in
            let miss : (j == i) ≡ false = ground arith in rw (on, miss, same) refl
      ];
    }

pub place_large-PlacesLarge :
    (s : PageTables) (levels prefixes : ℕ → ℕ) (l2 i paddr : ℕ) (flags : PageFlags)
    (type : MemoryType)
    → paddr ≤ max_physical_address s.builder
    → PlacesLarge s levels prefixes l2 i paddr flags (place_large s l2 i flags type paddr)
unfolding deallocate
place_large-PlacesLarge s levels prefixes l2 i paddr flags type fits =
    let t2 = s.entries l2 i in
    elim (Bool-cases (t2.present && not t2.attribute)) [
      | inl old ↦ rw old (
          write_large s _ (release s.cache t2.address) levels prefixes l2 i paddr flags type
            (λ a. find-release s.cache a t2.address) fits)
      | inr free ↦
          rw free
            (write_large s s.freed s.cache levels prefixes l2 i paddr flags type (λ a. refl) fits)
    ]
