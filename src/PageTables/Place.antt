-- ===== src/PageTables/Place.antt =====
-- Writing the last entry of a walk.
use bez_os.TableList.{PageTableAllocation}
use bez_os.PageEntry.Types.{bits-number}
use bez_os.PageTables.Map.{set_page}
use bez_os.PageTables.Tree.{IsTree, AreFree}
use bez_os.PageTables.{PageTables, set_flags_at, as_physical}
use bez_os.LookupTable.{find}
use bez_os.PageEntry.{
  Entry, PageFlags, set_entry_flags, MemoryType, set_address, set_memory_type, set_pat_entry,
  memory_type, max_physical_address, PageBuilder, masked, get_memory_pat_index,
}
use bez_os.Prelude.{
  ltb, ◌==◌, Bool-cases, ℕ, suc, ◌%◌, ◌≤◌, ◌≡◌, refl, ap, ◌≢◌, ◌⊎◌, inl, inr, true, false, not,
  Option, some, List, [], ◌∷◌, arith,
}

-- The entry maps the physical address with these flags and this memory type.
pub record Maps (pm : PageBuilder) (e : Entry) (flags : PageFlags) (type : MemoryType) (paddr : ℕ)
    : Type 0 where
  pub present : e.present ≡ true
  pub address : e.address ≡ masked pm paddr
  pub writeable : e.writeable ≡ flags.write
  pub execute_disable : e.execute_disable ≡ not flags.execute
  pub user : e.user ≡ flags.user
  pub memory : memory_type e ≡ get_memory_pat_index pm.layout type % 8

-- What a write of the last entry for a page gives.
pub record Places (s : PageTables) (levels prefixes : ℕ → ℕ) (pt page paddr : ℕ) (flags : PageFlags)
    (type : MemoryType) (result : Option PageTables) : Type 0 where
  pub tables : PageTables
  pub returns : result ≡ some tables
  pub tree : IsTree tables levels prefixes
  pub builder_kept : tables.builder ≡ s.builder
  pub root_kept : tables.root ≡ s.root
  pub find_kept : (a : ℕ) → find tables.cache a ≡ find s.cache a
  pub maps : Maps s.builder (tables.entries pt (page % 512)) flags type paddr
  pub others :
      (t i : ℕ) → levels t ≢ 0 → (t ≢ pt) ⊎ (i ≢ page % 512) → tables.entries t i ≡ s.entries t i

-- A table of another level than a pte's is not written to.
module _ (s s' : PageTables) (levels prefixes : ℕ → ℕ) (tree : IsTree s levels prefixes) (pt : ℕ)
    (last : levels pt ≡ 1) (same_root : s'.root ≡ s.root)
    (same_find : (a : ℕ) → find s'.cache a ≡ find s.cache a)
    (off : (t i : ℕ) → t ≢ pt → s'.entries t i ≡ s.entries t i) where
  above : (t i k : ℕ) → levels t ≡ suc (suc k) → s'.entries t i ≡ s.entries t i
  above t i k lev = off t i λ e. omega (arith, lev, last, ap levels e)

  pub last-IsTree : IsTree s' levels prefixes
  last-IsTree = record {
    root_level = rw same_root tree.root_level;
    root_prefix = rw same_root tree.root_prefix;
    leads = λ t i k lev lt.
        rw (above t i k lev, same_find (s.entries t i).address) (tree.leads t i k lev lt);
    top = λ t i lev. rw (above t i 2 lev) (tree.top t i lev);
    blank = λ t i k lev. rw (above t i k lev) (tree.blank t i k lev);
  }

pub set_page-Places :
    (s : PageTables) (levels prefixes : ℕ → ℕ) (pt page paddr : ℕ) (flags : PageFlags)
    (type : MemoryType)
    → IsTree s levels prefixes
    → levels pt ≡ 1
    → paddr ≤ max_physical_address s.builder
    → Places s levels prefixes pt page paddr flags type
        (set_page s pt (page % 512) flags type paddr)
unfolding set_flags_at set_entry_flags set_address set_memory_type set_pat_entry memory_type
set_page-Places s levels prefixes pt page paddr flags type tree lev fits =
    let under : ltb (max_physical_address s.builder) paddr ≡ false = ground (arith, fits) in
    let self : (pt == pt) ≡ true = ground arith in
    let at : (page % 512 == page % 512) ≡ true = ground arith in
    rw under record {
      tables = _;
      returns = refl;
      tree =
          last-IsTree s _ levels prefixes tree pt lev refl (λ a. refl)
            (λ t i ne. let miss : (t == pt) ≡ false = ground arith in rw miss refl);
      builder_kept = refl;
      root_kept = refl;
      find_kept = λ a. refl;
      maps =
          rw (self, at)
            record {
              present = refl;
              address = refl;
              writeable = refl;
              execute_disable = refl;
              user = refl;
              memory = bits-number (get_memory_pat_index s.builder.layout type);
            };
      others = λ t i ne other. elim (Bool-cases (t == pt)) [
        | inr off ↦ rw off refl
        | inl on ↦
            let same : t ≡ pt = ground arith in
            let miss : (i == page % 512) ≡ false = ground arith in rw (on, miss, same) refl
      ];
    }

pub AreFree-placed :
    (s s' : PageTables) (levels : ℕ → ℕ) (ps : List PageTableAllocation)
    → s'.builder ≡ s.builder
    → ((a : ℕ) → find s'.cache a ≡ find s.cache a)
    → AreFree s levels ps
    → AreFree s' levels ps
AreFree-placed s s' levels [] b f free = free
AreFree-placed s s' levels (p ∷ ps) b f free = (
  free.0,
  free.1,
  rw (f (as_physical p)) free.2,
  rw b free.3,
  rw b free.4,
  AreFree-placed s s' levels ps b f free.5,
)
