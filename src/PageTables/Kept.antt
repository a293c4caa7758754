-- ===== src/PageTables/Kept.antt =====
-- What a step down the tables leaves as it was, and what it reaches.
use bez_os.PageTables.Grow.{Adds, grown_levels_kept, grown_prefixes_kept, same_place, resolve-grow}
use bez_os.PageTables.Tree.{resolve, IsTree, high}
use bez_os.PageTables.{PageTables, as_virtual}
use bez_os.Prelude.{ℕ, suc, ◌+◌, ◌*◌, ◌%◌, ◌≡◌, refl, ap₂, ◌≢◌, inl, inr, true, false, arith}
use bez_os.LookupTable.{find}
use bez_os.Prelude.Store.{write}

-- What a step leaves as it was.
pub record Kept (s s' : PageTables) (levels levels' prefixes prefixes' : ℕ → ℕ) : Type 0 where
  pub builder_kept : s'.builder ≡ s.builder
  pub root_kept : s'.root ≡ s.root
  pub find_kept : (a : ℕ) → find s'.cache a ≡ find s.cache a
  pub levels_kept : (t : ℕ) → levels t ≢ 0 → levels' t ≡ levels t
  pub prefixes_kept : (t : ℕ) → levels t ≢ 0 → prefixes' t ≡ prefixes t
  pub entries_kept :
      (t i : ℕ) → levels t ≢ 0 → (s.entries t i).present ≡ true → s'.entries t i ≡ s.entries t i
  pub resolve_kept : (k t page : ℕ) → levels t ≡ suc k → resolve k s' t page ≡ resolve k s t page

pub Kept-refl :
    (s : PageTables) (levels prefixes : ℕ → ℕ) → Kept s s levels levels prefixes prefixes
Kept-refl s levels prefixes = record {
  builder_kept = refl;
  root_kept = refl;
  find_kept = λ a. refl;
  levels_kept = λ t l. refl;
  prefixes_kept = λ t l. refl;
  entries_kept = λ t i l there. refl;
  resolve_kept = λ k t page l. refl;
}

pub Adds-Kept :
    (s s' : PageTables) (levels prefixes : ℕ → ℕ) (t0 i0 k0 block : ℕ)
    → IsTree s levels prefixes
    → (adds : Adds s s' levels t0 i0 k0 block)
    → Kept s s' levels
        (write levels block (suc k0))
        prefixes
        (write prefixes block (prefixes t0 * 512 + i0))
Adds-Kept s s' levels prefixes t0 i0 k0 block tree adds = record {
  builder_kept = adds.builder_kept;
  root_kept = adds.root_kept;
  find_kept = adds.find_kept;
  levels_kept = grown_levels_kept s s' levels prefixes tree t0 i0 k0 block adds;
  prefixes_kept = grown_prefixes_kept s s' levels prefixes tree t0 i0 k0 block adds;
  entries_kept = λ t i l there. adds.others t i l (elim (same_place t t0 i i0) [
    | inl (here, at) ↦
        absurd (ground (arith, adds.was_absent, ap₂ (λ t i. (s.entries t i).present) here at))
    | inr other ↦ other
  ]);
  resolve_kept = resolve-grow s s' levels prefixes tree t0 i0 k0 block adds;
}

-- The table under the entry for a page: at the level `suc k`, and reached through a present entry.
pub record Reached (s : PageTables) (levels prefixes : ℕ → ℕ) (t0 k page t1 : ℕ) : Type 0 where
  pub level : levels t1 ≡ suc k
  pub prefix : prefixes t1 ≡ high (suc k) page
  pub there : (s.entries t0 (high (suc k) page % 512)).present ≡ true
  pub small : (s.entries t0 (high (suc k) page % 512)).attribute ≡ false
  pub points : as_virtual s (s.entries t0 (high (suc k) page % 512)).address ≡ t1
