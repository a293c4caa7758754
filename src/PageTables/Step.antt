-- ===== src/PageTables/Step.antt =====
-- One step down the tables, `get_page_map`, which adds a table where there is none.
use bez_os.PageTables.Kept.{Kept, Kept-refl, Adds-Kept, Reached}
use bez_os.PageTables.Grow.{Adds, grow-IsTree, grow-AreFree}
use bez_os.PageTables.Tree.{IsTree, AreFree, high, missing}
use bez_os.TableList.{PageTableAllocation}
use bez_os.PageEntry.{set_entry_flags, set_address, max_physical_address, no_entry}
use bez_os.PageTables.{
  new_table, claim_list_entry, set_flags_at, PageTables, as_physical, write, get_page_map,
  as_virtual,
}
use bez_os.LookupTable.Counts.{find-retain}
use bez_os.Prelude.{
  ltb, ◌==◌, Bool-cases, length, ℕ, zero, suc, ◌+◌, ◌*◌, ◌%◌, ◌≤◌, ◌≡◌, refl, ap, ◌∙◌, inl, inr,
  true, false, Option, some, List, [], ◌∷◌, arith,
}

-- A free page makes a new table under an absent entry.
pub new_table-Adds :
    (s : PageTables) (levels prefixes : ℕ → ℕ) (t0 i0 k0 : ℕ) (p : PageTableAllocation)
    (ps : List PageTableAllocation)
    → IsTree s levels prefixes
    → levels t0 ≡ suc (suc k0)
    → (s.entries t0 i0).present ≡ false
    → AreFree s levels (p ∷ ps)
    → (s' : PageTables) × (new_table s t0 i0 (p ∷ ps) ≡ some (p.block, s', ps))
      × Adds s s' levels t0 i0 k0 p.block
unfolding new_table claim_list_entry set_flags_at set_entry_flags set_address
new_table-Adds s levels prefixes t0 i0 k0 p ps tree lev absent free =
    let fits : ltb (max_physical_address s.builder) (as_physical p) ≡ false =
      ground (arith, free.4) in
    let old : (t0 == p.block) ≡ false = (elim (Bool-cases (t0 == p.block)) [
      | inl same ↦
          let here : t0 ≡ p.block = ground arith in
          absurd (omega (arith, lev, free.0, ap levels here))
      | inr other ↦ other
    ]) in
    let back : (p.block == t0) ≡ false = ground arith in
    let here : (t0 == t0) ≡ true = ground arith in
    let self : (p.block == p.block) ≡ true = ground arith in
    let at : (i0 == i0) ≡ true = ground arith in
    rw (fits, old)
      (
        _,
        refl,
        record {
          builder_kept = refl;
          root_kept = refl;
          flags_kept = refl;
          find_kept = λ a. find-retain s.cache a (as_physical p);
          was_free = free.0;
          level = lev;
          was_absent = absent;
          there = rw (here, at) refl;
          small = rw (here, at) (tree.blank t0 i0 k0 lev absent);
          points =
              rw (here, at, free.3, find-retain s.cache (as_physical p) (as_physical p)) free.2;
          empty = λ i. rw (back, self) refl;
          others = λ t i ne other.
              let kept : (t == p.block) ≡ false = (elim (Bool-cases (t == p.block)) [
                | inl same ↦
                    let on : t ≡ p.block = ground arith in absurd (ne (ap levels on ∙ free.0))
                | inr off ↦ off
              ]) in
              elim (Bool-cases (t == t0)) [
                | inr off ↦ rw (off, kept) refl
                | inl on ↦
                    let same : t ≡ t0 = ground arith in
                    let miss : (i == i0) ≡ false = ground arith in rw (on, miss, same) refl
              ];
        },
      )

-- What a step gives: the tables, the list and the ghost functions.
pub record Stepped (s : PageTables) (levels prefixes : ℕ → ℕ) (buffer : List PageTableAllocation)
    (t0 k page : ℕ) (result : Option (ℕ × PageTables × List PageTableAllocation)) : Type 0 where
  pub table : ℕ
  pub tables : PageTables
  pub left : List PageTableAllocation
  pub levels' : ℕ → ℕ
  pub prefixes' : ℕ → ℕ
  pub returns : result ≡ some (table, tables, left)
  pub tree : IsTree tables levels' prefixes'
  pub free : AreFree tables levels' left
  pub kept : Kept s tables levels levels' prefixes prefixes'
  pub reached : Reached tables levels' prefixes' t0 k page table
  pub taken : length buffer + missing k tables table page ≡ length left + missing (suc k) s t0 page

missing-empty :
    (k : ℕ) (s : PageTables) (t page : ℕ)
    → ((i : ℕ) → s.entries t i ≡ no_entry)
    → missing k s t page ≡ k
missing-empty zero s t page e = refl
missing-empty (suc k) s t page e = rw (e (high (suc k) page % 512)) refl

missing-absent :
    (k : ℕ) (s : PageTables) (t page : ℕ)
    → (s.entries t (high (suc k) page % 512)).present ≡ false
    → missing (suc k) s t page ≡ suc k
missing-absent k s t page e = rw e refl

-- A step into a table that is there.
stay-Stepped :
    (s : PageTables) (levels prefixes : ℕ → ℕ) (buffer : List PageTableAllocation) (t0 k page : ℕ)
    → IsTree s levels prefixes
    → AreFree s levels buffer
    → levels t0 ≡ suc (suc k)
    → prefixes t0 ≡ high (suc (suc k)) page
    → (s.entries t0 (high (suc k) page % 512)).attribute ≡ false
    → (s.entries t0 (high (suc k) page % 512)).present ≡ true
    → Stepped s levels prefixes buffer t0 k page
        (get_page_map s t0 (high (suc k) page % 512) buffer)
unfolding get_page_map
stay-Stepped s levels prefixes buffer t0 k page tree free lev pre small there =
    let i = high (suc k) page % 512 in
    let e = s.entries t0 i in
    let child = tree.leads t0 i k lev (omega arith) there small in
    rw there record {
      table = as_virtual s e.address;
      tables = s;
      left = buffer;
      levels' = levels;
      prefixes' = prefixes;
      returns = refl;
      tree = tree;
      free = free;
      kept = Kept-refl s levels prefixes;
      reached = record {
        level = child.0;
        prefix = omega (arith, child.1, pre);
        there = there;
        small = small;
        points = refl;
      };
      taken = rw there refl;
    }

-- A step into a new table.
grow-Stepped :
    (s : PageTables) (levels prefixes : ℕ → ℕ) (p : PageTableAllocation)
    (ps : List PageTableAllocation) (t0 k page : ℕ)
    → IsTree s levels prefixes
    → AreFree s levels (p ∷ ps)
    → levels t0 ≡ suc (suc k)
    → prefixes t0 ≡ high (suc (suc k)) page
    → (s.entries t0 (high (suc k) page % 512)).present ≡ false
    → Stepped s levels prefixes
        (p ∷ ps)
        t0
        k
        page
        (get_page_map s t0 (high (suc k) page % 512) (p ∷ ps))
unfolding get_page_map
grow-Stepped s levels prefixes p ps t0 k page tree free lev pre absent =
    let i = high (suc k) page % 512 in
    let (s', returns, adds) = new_table-Adds s levels prefixes t0 i k p ps tree lev absent free in
    let self : (p.block == p.block) ≡ true = ground arith in
    rw absent record {
      table = p.block;
      tables = s';
      left = ps;
      levels' = write levels p.block (suc k);
      prefixes' = write prefixes p.block (prefixes t0 * 512 + i);
      returns = returns;
      tree = grow-IsTree s s' levels prefixes tree t0 i k p.block adds;
      free = grow-AreFree s s' levels prefixes tree t0 i k p.block adds ps free.1 free.5;
      kept = Adds-Kept s s' levels prefixes t0 i k p.block tree adds;
      reached = record {
        level = rw self refl;
        prefix = rw self (omega (arith, pre));
        there = adds.there;
        small = adds.small;
        points = adds.points;
      };
      taken =
          omega
            (arith, missing-empty k s' p.block page adds.empty, missing-absent k s t0 page absent);
    }

pub get_page_map-Stepped :
    (s : PageTables) (levels prefixes : ℕ → ℕ) (buffer : List PageTableAllocation) (t0 k page : ℕ)
    → IsTree s levels prefixes
    → AreFree s levels buffer
    → levels t0 ≡ suc (suc k)
    → prefixes t0 ≡ high (suc (suc k)) page
    → (s.entries t0 (high (suc k) page % 512)).attribute ≡ false
    → missing (suc k) s t0 page ≤ length buffer
    → Stepped s levels prefixes buffer t0 k page
        (get_page_map s t0 (high (suc k) page % 512) buffer)
get_page_map-Stepped s levels prefixes [] t0 k page tree free lev pre small enough =
    elim (Bool-cases (s.entries t0 (high (suc k) page % 512)).present) [
      | inl there ↦ stay-Stepped s levels prefixes [] t0 k page tree free lev pre small there
      | inr absent ↦ absurd (omega (arith, enough, missing-absent k s t0 page absent))
    ]
get_page_map-Stepped s levels prefixes (p ∷ ps) t0 k page tree free lev pre small enough =
    elim (Bool-cases (s.entries t0 (high (suc k) page % 512)).present) [
      | inl there ↦ stay-Stepped s levels prefixes (p ∷ ps) t0 k page tree free lev pre small there
      | inr absent ↦ grow-Stepped s levels prefixes p ps t0 k page tree free lev pre absent
    ]
