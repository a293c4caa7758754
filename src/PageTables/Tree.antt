-- ===== src/PageTables/Tree.antt =====
-- Page tables as a tree: what a page is mapped to, and which entries that depends on.
use bez_os.TableList.Pages.{holds}
use bez_os.TableList.{PageTableAllocation}
use bez_os.PageTables.{PageTables, as_virtual, as_physical}
use bez_os.LookupTable.{find}
use bez_os.PageEntry.{Entry, masked, max_physical_address}
use bez_os.Prelude.{
  ◌==◌, if◌then◌else◌, Bool-cases, ℕ, zero, suc, ◌+◌, ◌*◌, ◌/◌, ◌%◌, ◌≤◌, ◌<◌, ◌≡◌, refl, ap, ◌≢◌,
  ◌⊎◌, inl, inr, true, false, not, Option, none, some, List, [], ◌∷◌, arith,
}

-- The part of a page number that is above the index of a level.
abbrev pub high : ℕ → ℕ → ℕ
high zero page = page
high (suc k) page = high k page / 512

-- What a page number leads to under a table: the level of the entry that maps it, from 0 for a pte,
-- and that entry. The first argument is the table's level.
abbrev pub resolve : ℕ → PageTables → ℕ → ℕ → Option (ℕ × Entry)
resolve zero s t page = let e = s.entries t (page % 512) in if e.present then some (0, e) else none
resolve (suc k) s t page =
    let e = s.entries t (high (suc k) page % 512) in
    let rest = resolve k s (as_virtual s e.address) page in
    if not e.present then none else if e.attribute then some (suc k, e) else rest

-- How many tables have to be added under a table, of the level one above the first argument, to reach
-- the last entry for a page.
abbrev pub missing : ℕ → PageTables → ℕ → ℕ → ℕ
missing zero s t page = 0
missing (suc k) s t page =
    let e = s.entries t (high (suc k) page % 512) in
    let rest = missing k s (as_virtual s e.address) page in if e.present then rest else suc k

-- The pages of the list hold no table, are different, and their physical addresses can be looked up
-- and stored in an entry.
abbrev pub AreFree : PageTables → (ℕ → ℕ) → List PageTableAllocation → Type 0
AreFree s levels [] = Unit
AreFree s levels (p ∷ ps) =
    (levels p.block ≡ 0)
    × (holds p.block ps ≡ false)
    × (as_virtual s (as_physical p) ≡ p.block)
    × (masked s.builder (as_physical p) ≡ as_physical p)
    × (as_physical p ≤ max_physical_address s.builder)
    × AreFree s levels ps

-- `levels` is one more than the level of a table, and 0 for a page that is none; `prefixes` is the part
-- of the page number that leads to a table.
pub record IsTree (s : PageTables) (levels prefixes : ℕ → ℕ) : Type 0 where
  pub root_level : levels s.root ≡ 4
  pub root_prefix : prefixes s.root ≡ 0
  pub leads :
      (t i k : ℕ)
      → levels t ≡ suc (suc k)
      → i < 512
      → (s.entries t i).present ≡ true
      → (s.entries t i).attribute ≡ false
      → (levels (as_virtual s (s.entries t i).address) ≡ suc k)
        × (prefixes (as_virtual s (s.entries t i).address) ≡ prefixes t * 512 + i)
  pub top : (t i : ℕ) → levels t ≡ 4 → (s.entries t i).attribute ≡ false
  pub blank :
      (t i k : ℕ)
      → levels t ≡ suc (suc k)
      → (s.entries t i).present ≡ false
      → (s.entries t i).attribute ≡ false

module _ (s s' : PageTables) (levels prefixes : ℕ → ℕ) (tree : IsTree s levels prefixes)
    (same_find : (a : ℕ) → find s'.cache a ≡ find s.cache a) (t0 i0 k0 : ℕ)
    (at : levels t0 ≡ suc k0)
    (others : (t i : ℕ) → levels t ≢ 0 → (t ≢ t0) ⊎ (i ≢ i0) → s'.entries t i ≡ s.entries t i) where
  apart :
      (k t page : ℕ)
      → levels t ≡ suc k
      → prefixes t ≡ high (suc k) page
      → high k0 page ≢ prefixes t0 * 512 + i0
      → s'.entries t (high k page % 512) ≡ s.entries t (high k page % 512)
  apart k t page lev pre ne =
      others t (high k page % 512) (omega (arith, lev)) (elim (Bool-cases (t == t0)) [
        | inl same ↦ inr λ e.
            let here : t ≡ t0 = ground arith in
            let level : k ≡ k0 = omega (arith, lev, at, ap levels here) in
            ne (omega (arith, e, pre, ap prefixes here, ap (λ n. high n page) level))
        | inr other ↦ inl (ground arith)
      ])

  -- A change of one entry does not touch the pages that do not use it.
  pub resolve-frame :
      (k t page : ℕ)
      → levels t ≡ suc k
      → prefixes t ≡ high (suc k) page
      → high k0 page ≢ prefixes t0 * 512 + i0
      → resolve k s' t page ≡ resolve k s t page
  resolve-frame zero t page lev pre ne = rw (apart zero t page lev pre ne) refl
  resolve-frame (suc k) t page lev pre ne =
      let e = s.entries t (high (suc k) page % 512) in
      elim (Bool-cases e.present) [
        | inr absent ↦ rw (apart (suc k) t page lev pre ne, absent) refl
        | inl there ↦ elim (Bool-cases e.attribute) [
          | inl large ↦ rw (apart (suc k) t page lev pre ne, there, large) refl
          | inr small ↦
              let child = tree.leads t (high (suc k) page % 512) k lev (omega arith) there small in
              rw (apart (suc k) t page lev pre ne, there, small, same_find e.address)
                (resolve-frame k (as_virtual s e.address) page child.0 (omega (arith, child.1, pre))
                  ne)
        ]
      ]
