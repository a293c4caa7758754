-- ===== src/PageTables/Unused.antt =====
-- Freeing an empty table: every page is mapped as before.
use bez_os.PageTables.Grow.{same_place}
use bez_os.PageTables.Compact.{free_table}
use bez_os.PageTables.Tree.{IsTree, resolve, high}
use bez_os.PageTables.{PageTables, as_virtual, deallocate}
use bez_os.LookupTable.{find}
use bez_os.LookupTable.Counts.{find-release}
use bez_os.PageEntry.{Entry}
use bez_os.Prelude.{
  ◌==◌, Bool-cases, ℕ, zero, suc, ◌%◌, ◌≤◌, ◌<◌, ◌≡◌, refl, sym, ap, ap₂, ◌∙◌, ◌≢◌, ◌⊎◌, inl, inr,
  true, false, none, arith,
}

-- What compaction below a level leaves as it was. A present entry is as it was.
pub record Same (levels prefixes : ℕ → ℕ) (level : ℕ) (s s' : PageTables) : Type 0 where
  pub tree : IsTree s' levels prefixes
  pub root_kept : s'.root ≡ s.root
  pub find_kept : (a : ℕ) → find s'.cache a ≡ find s.cache a
  pub resolve_kept : (k t page : ℕ) → levels t ≡ suc k → resolve k s' t page ≡ resolve k s t page
  pub upper : (t i : ℕ) → level < levels t → s'.entries t i ≡ s.entries t i
  pub gone : (t i : ℕ) → (s.entries t i).present ≡ false → (s'.entries t i).present ≡ false

module _ (levels prefixes : ℕ → ℕ) where
  pub Same-refl :
      (level : ℕ) (s : PageTables) → IsTree s levels prefixes → Same levels prefixes level s s
  Same-refl level s tree = record {
    tree = tree;
    root_kept = refl;
    find_kept = λ a. refl;
    resolve_kept = λ k t page lev. refl;
    upper = λ t i lev. refl;
    gone = λ t i absent. absent;
  }

  pub Same-trans :
      (low level : ℕ) (s s' s'' : PageTables)
      → low ≤ level
      → Same levels prefixes low s s'
      → Same levels prefixes level s' s''
      → Same levels prefixes level s s''
  Same-trans low level s s' s'' le a b = record {
    tree = b.tree;
    root_kept = b.root_kept ∙ a.root_kept;
    find_kept = λ x. b.find_kept x ∙ a.find_kept x;
    resolve_kept = λ k t page lev. b.resolve_kept k t page lev ∙ a.resolve_kept k t page lev;
    upper = λ t i lev. b.upper t i lev ∙ a.upper t i (omega (arith, le, lev));
    gone = λ t i absent. b.gone t i (a.gone t i absent);
  }

  pub Same-weaken :
      (low level : ℕ) (s s' : PageTables)
      → low ≤ level
      → Same levels prefixes low s s'
      → Same levels prefixes level s s'
  Same-weaken low level s s' le a = Same-trans low level s s' s' le a (Same-refl level s' a.tree)

resolve-bare :
    (k : ℕ) (s : PageTables) (t page : ℕ)
    → ((i : ℕ) → i < 512 → (s.entries t i).present ≡ false)
    → resolve k s t page ≡ none
resolve-bare zero s t page e = rw (e (page % 512) (omega arith)) refl
resolve-bare (suc k) s t page e = rw (e (high (suc k) page % 512) (omega arith)) refl

module _ (levels prefixes : ℕ → ℕ) (s : PageTables) (t0 i0 k0 : ℕ) (tree : IsTree s levels prefixes)
    (lev0 : levels t0 ≡ suc (suc k0)) (there : (s.entries t0 i0).present ≡ true)
    (small : (s.entries t0 i0).attribute ≡ false)
    (empty : (i : ℕ)
      → i < 512
      → (s.entries (as_virtual s (s.entries t0 i0).address) i).present ≡ false) where
  self : (t0 == t0) ≡ true
  self = ground arith

  at : (i0 == i0) ≡ true
  at = ground arith

  cleared : ((free_table s t0 i0).entries t0 i0).present ≡ false
  unfolding free_table deallocate
  cleared = rw (self, at) refl

  unmarked : ((free_table s t0 i0).entries t0 i0).attribute ≡ false
  unfolding free_table deallocate
  unmarked = rw (self, at) small

  others : (t i : ℕ) → (t ≢ t0) ⊎ (i ≢ i0) → (free_table s t0 i0).entries t i ≡ s.entries t i
  unfolding free_table deallocate
  others t i other = elim (Bool-cases (t == t0)) [
    | inr off ↦ rw off refl
    | inl on ↦
        let same : t ≡ t0 = ground arith in
        let miss : (i == i0) ≡ false = ground arith in rw (on, miss, same) refl
  ]

  same_find : (a : ℕ) → find (free_table s t0 i0).cache a ≡ find s.cache a
  unfolding free_table deallocate
  same_find a = find-release s.cache a (s.entries t0 i0).address

  same_root : (free_table s t0 i0).root ≡ s.root
  unfolding free_table deallocate
  same_root = refl

  free_table-resolve :
      (k t page : ℕ) → levels t ≡ suc k → resolve k (free_table s t0 i0) t page ≡ resolve k s t page
  free_table-resolve zero t page lev =
      rw (others t (page % 512) (inl λ e. omega (arith, lev, lev0, ap levels e))) refl
  free_table-resolve (suc k) t page lev =
      let i = high (suc k) page % 512 in
      let e = s.entries t i in
      elim (same_place t t0 i i0) [
        | inl (here, place) ↦
            rw (here, place, cleared, there, small)
              (sym (resolve-bare k s (as_virtual s (s.entries t0 i0).address) page empty))
        | inr other ↦ rw (others t i other) (elim (Bool-cases e.present) [
          | inr absent ↦ rw absent refl
          | inl present ↦ elim (Bool-cases e.attribute) [
            | inl marked ↦ rw (present, marked) refl
            | inr plain ↦
                rw (present, plain, same_find e.address)
                  (free_table-resolve k (as_virtual s e.address) page
                    (tree.leads t i k lev (omega arith) present plain).0)
          ]
        ])
      ]

  free_table-IsTree : IsTree (free_table s t0 i0) levels prefixes
  free_table-IsTree = record {
    root_level = rw same_root tree.root_level;
    root_prefix = rw same_root tree.root_prefix;
    leads = λ t i k lev lt present plain. elim (same_place t t0 i i0) [
      | inl (here, place) ↦ absurd (
          ground (
            arith,
            cleared,
            present,
            ap₂ (λ t i. ((free_table s t0 i0).entries t i).present) here place,
          ))
      | inr other ↦
          let same = others t i other in
          rw (same, same_find (s.entries t i).address)
            (tree.leads t i k lev lt (sym (ap (λ (e : Entry). e.present) same) ∙ present)
              (sym (ap (λ (e : Entry). e.attribute) same) ∙ plain))
    ];
    top = λ t i lev. elim (same_place t t0 i i0) [
      | inl (here, place) ↦ rw (here, place) unmarked
      | inr other ↦ rw (others t i other) (tree.top t i lev)
    ];
    blank = λ t i k lev absent. elim (same_place t t0 i i0) [
      | inl (here, place) ↦ rw (here, place) unmarked
      | inr other ↦
          let same = others t i other in
          rw same (tree.blank t i k lev (sym (ap (λ (e : Entry). e.present) same) ∙ absent))
    ];
  }

  pub free_table-Same : Same levels prefixes (suc (suc k0)) s (free_table s t0 i0)
  free_table-Same = record {
    tree = free_table-IsTree;
    root_kept = same_root;
    find_kept = same_find;
    resolve_kept = free_table-resolve;
    upper = λ t i lev. others t i (inl λ e. omega (arith, lev, lev0, ap levels e));
    gone = λ t i absent. elim (same_place t t0 i i0) [
      | inl (here, place) ↦ rw (here, place) cleared
      | inr other ↦ rw (others t i other) absent
    ];
  }
