-- ===== src/PageTables/LargeEntry.antt =====
-- Large pages in the tree of tables.
use bez_os.PageTables.Grow.{same_place}
use bez_os.PageTables.Tree.{IsTree, resolve, high}
use bez_os.PageTables.{PageTables, as_virtual}
use bez_os.Prelude.{
  ltb, Bool-cases, ℕ, zero, suc, ◌/◌, ◌%◌, ◌≡◌, refl, sym, ap, ap₂, ◌∙◌, ◌≢◌, ◌⊎◌, inl, inr, Bool,
  true, false, Option, none, some, arith,
}
use bez_os.LookupTable.{find}
use bez_os.PageEntry.{Entry}

-- No page of 1 GiB maps the page.
abbrev pub is_not_huge : Option (ℕ × Entry) → Bool
is_not_huge none = true
is_not_huge (some r) = ltb r.0 2

pub not_huge_entry :
    (s : PageTables) (levels prefixes : ℕ → ℕ) (t page : ℕ)
    → IsTree s levels prefixes
    → levels t ≡ 3
    → is_not_huge (resolve 2 s t page) ≡ true
    → (s.entries t (high 2 page % 512)).attribute ≡ false
not_huge_entry s levels prefixes t page tree lev small =
    let e = s.entries t (high 2 page % 512) in
    elim (Bool-cases e.attribute) [
      | inr unmarked ↦ unmarked
      | inl marked ↦ elim (Bool-cases e.present) [
        | inr absent ↦ tree.blank t (high 2 page % 512) 1 lev absent
        | inl there ↦
            let huge : is_not_huge (resolve 2 s t page) ≡ false =
              rw (there, marked) (ground arith) in
            absurd (ground (arith, small, huge))
      ]
    ]

abbrev level_of : Option (ℕ × Entry) → ℕ
level_of none = 0
level_of (some r) = r.0

not_last : (s : PageTables) (t page : ℕ) → level_of (resolve 0 s t page) ≡ 0
not_last s t page = elim (Bool-cases (s.entries t (page % 512)).present) [
  | inl there ↦ rw there refl
  | inr absent ↦ rw absent refl
]

-- A large page maps all pages of its 2 MiB.
pub resolve-large :
    (k : ℕ) (s : PageTables) (t p q : ℕ) (entry : Entry)
    → high 1 p ≡ high 1 q
    → resolve k s t p ≡ some (1, entry)
    → resolve k s t q ≡ some (1, entry)
resolve-large zero s t p q entry same mapped =
    absurd (omega (arith, not_last s t p, ap level_of mapped))
resolve-large (suc k) s t p q entry same mapped =
    let back : high (suc k) q ≡ high (suc k) p = sym (same_high k) in
    let e = s.entries t (high (suc k) p % 512) in
    elim (Bool-cases e.present) [
      | inr absent ↦
          let stop : resolve (suc k) s t q ≡ resolve (suc k) s t p = rw (back, absent) refl in
          stop ∙ mapped
      | inl there ↦ elim (Bool-cases e.attribute) [
        | inl marked ↦
            let stop : resolve (suc k) s t q ≡ resolve (suc k) s t p =
              rw (back, there, marked) refl in
            stop ∙ mapped
        | inr small ↦
            let down : resolve (suc k) s t p ≡ resolve k s (as_virtual s e.address) p =
              rw (there, small) refl in
            rw (back, there, small)
              (resolve-large k s (as_virtual s e.address) p q entry same (sym down ∙ mapped))
      ]
    ]
  where
    same_high : (k : ℕ) → high (suc k) p ≡ high (suc k) q
    same_high zero = same
    same_high (suc k) = ap (λ n. n / 512) (same_high k)

module _ (s s' : PageTables) (levels prefixes : ℕ → ℕ) (tree : IsTree s levels prefixes) (l2 i : ℕ)
    (level : levels l2 ≡ 2) (same_root : s'.root ≡ s.root)
    (same_find : (a : ℕ) → find s'.cache a ≡ find s.cache a)
    (there : (s'.entries l2 i).present ≡ true) (marked : (s'.entries l2 i).attribute ≡ true)
    (off : (t j : ℕ) → (t ≢ l2) ⊎ (j ≢ i) → s'.entries t j ≡ s.entries t j) where
  pub large-IsTree : IsTree s' levels prefixes
  large-IsTree = record {
    root_level = rw same_root tree.root_level;
    root_prefix = rw same_root tree.root_prefix;
    leads = λ t j k lev lt present small. elim (same_place t l2 j i) [
      | inl (here, at) ↦
          absurd (ground (arith, marked, small, ap₂ (λ t j. (s'.entries t j).attribute) here at))
      | inr other ↦
          let same = off t j other in
          rw (same, same_find (s.entries t j).address)
            (tree.leads t j k lev lt (sym (ap (λ (e : Entry). e.present) same) ∙ present)
              (sym (ap (λ (e : Entry). e.attribute) same) ∙ small))
    ];
    top = λ t j lev.
        rw (off t j (inl λ e. omega (arith, lev, level, ap levels e))) (tree.top t j lev);
    blank = λ t j k lev absent. elim (same_place t l2 j i) [
      | inl (here, at) ↦
          absurd (ground (arith, there, absent, ap₂ (λ t j. (s'.entries t j).present) here at))
      | inr other ↦
          let same = off t j other in
          rw same (tree.blank t j k lev (sym (ap (λ (e : Entry). e.present) same) ∙ absent))
    ];
  }
