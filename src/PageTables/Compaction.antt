-- ===== src/PageTables/Compaction.antt =====
-- What `compact` does to the mapping of every address.
use bez_os.PageTables.MapPage.{page_of}
use bez_os.PageTables.Backing.{get_backing_address-resolve, backing, size_of}
use bez_os.PageTables.Walk.{get_backing_address, page_size_of, walk_unlocked}
use bez_os.PageTables.Unused.{Same-refl, Same, Same-trans, free_table-Same, Same-weaken}
use bez_os.PageTables.Tree.{IsTree, resolve}
use bez_os.PageTables.{PageTables, as_virtual}
use bez_os.PageTables.Compact.{
  is_table_empty, compact_pt, compact_loop, compact_under, compact_pd, compact_pdpt, compact_pml4,
  compact, free_table,
}
use bez_os.Prelude.{
  ◌==◌, if◌then◌else◌, Bool-cases, ℕ, zero, suc, ◌+◌, ◌≤◌, ◌<◌, ◌≡◌, refl, sym, ap, ◌∙◌, inl, inr,
  Bool, true, false, arith,
}

is_table_empty-at :
    (n : ℕ) (s : PageTables) (t i : ℕ)
    → is_table_empty n s t ≡ true
    → i < n
    → (s.entries t i).present ≡ false
unfolding is_table_empty
is_table_empty-at zero s t i e lt = absurd (omega (arith, lt))
is_table_empty-at (suc n) s t i e lt = elim (Bool-cases (s.entries t n).present) [
  | inl there ↦ absurd (ground (arith, e, there))
  | inr absent ↦ elim (Bool-cases (i == n)) [
    | inl last ↦ let here : i ≡ n = ground arith in rw here absent
    | inr before ↦ is_table_empty-at n s t i (ground (arith, e, absent)) (ground (arith, lt))
  ]
]

-- What the compaction of an entry of a table of a level keeps.
abbrev Keeps : (ℕ → ℕ) → (ℕ → ℕ) → ℕ → (PageTables → (table index : ℕ) → PageTables × ℕ) → Type 0
Keeps levels prefixes level compact_one =
    (s : PageTables) (t i : ℕ)
    → IsTree s levels prefixes
    → levels t ≡ level
    → i < 512
    → Same levels prefixes level s (compact_one s t i).0

compact_pt-Same : (levels prefixes : ℕ → ℕ) → Keeps levels prefixes 2 compact_pt
unfolding compact_pt
compact_pt-Same levels prefixes s pd i tree lev lt =
    let e = s.entries pd i in
    elim (Bool-cases e.present) [
      | inr absent ↦ rw absent (Same-refl levels prefixes 2 s tree)
      | inl there ↦ elim (Bool-cases e.attribute) [
        | inl marked ↦ rw (there, marked) (Same-refl levels prefixes 2 s tree)
        | inr small ↦ elim (Bool-cases (is_table_empty 512 s (as_virtual s e.address))) [
          | inl empty ↦
              rw (there, small, empty)
                (free_table-Same levels prefixes s pd i 0 tree lev there small
                  (λ j below. is_table_empty-at 512 s (as_virtual s e.address) j empty below))
          | inr used ↦ rw (there, small, used) (Same-refl levels prefixes 2 s tree)
        ]
      ]
    ]

-- The loop over a table's entries, and what it means that none was left present.
record Looped (levels prefixes : ℕ → ℕ) (level : ℕ) (s : PageTables) (t i : ℕ) (reclaim : Bool)
    (result : PageTables × ℕ × Bool) : Type 0 where
  same : Same levels prefixes level s result.0
  none_before : result.2 ≡ true → reclaim ≡ true
  none_left : (j : ℕ) → result.2 ≡ true → i ≤ j → j < 512 → (result.0.entries t j).present ≡ false

compact_loop-Looped :
    (levels prefixes : ℕ → ℕ) (compact_one : PageTables → (table index : ℕ) → PageTables × ℕ)
    (level left : ℕ) (s : PageTables) (t i count : ℕ) (reclaim : Bool)
    → Keeps levels prefixes level compact_one
    → IsTree s levels prefixes
    → levels t ≡ level
    → i + left ≡ 512
    → Looped levels prefixes level s t i reclaim (compact_loop compact_one left s t i count reclaim)
unfolding compact_loop
compact_loop-Looped levels prefixes compact_one level zero s t i count reclaim keeps tree lev e =
    record {
      same = Same-refl levels prefixes level s tree;
      none_before = λ r. r;
      none_left = λ j r lo hi. absurd (omega (arith, lo, hi, e));
    }
compact_loop-Looped levels prefixes compact_one level (suc left) s t i count reclaim keeps tree lev
      e =
    let s' = (compact_one s t i).0 in
    let first = keeps s t i tree lev (omega (arith, e)) in
    let still = if (s'.entries t i).present then false else reclaim in
    let rest =
      compact_loop-Looped levels prefixes compact_one level left s' t (i + 1)
        (count + (compact_one s t i).1) still keeps first.tree lev (omega (arith, e)) in
    record {
      same = Same-trans levels prefixes level level s s' _ (omega arith) first rest.same;
      none_before = λ r. elim (Bool-cases (s'.entries t i).present) [
        | inl there ↦ absurd (ground (arith, rest.none_before r, there))
        | inr absent ↦ ground (arith, rest.none_before r, absent)
      ];
      none_left = λ j r lo hi. elim (Bool-cases (j == i)) [
        | inl here ↦ elim (Bool-cases (s'.entries t i).present) [
          | inl there ↦ absurd (ground (arith, rest.none_before r, there))
          | inr absent ↦
              let same_place : j ≡ i = ground arith in rw same_place (rest.same.gone t i absent)
        ]
        | inr later ↦ rest.none_left j r (ground (arith, lo)) hi
      ];
    }

compact_under-Same :
    (levels prefixes : ℕ → ℕ) (compact_one : PageTables → (table index : ℕ) → PageTables × ℕ)
    (k : ℕ) (s : PageTables) (t i : ℕ)
    → Keeps levels prefixes (suc k) compact_one
    → IsTree s levels prefixes
    → levels t ≡ suc (suc k)
    → i < 512
    → (s.entries t i).present ≡ true
    → (s.entries t i).attribute ≡ false
    → Same levels prefixes (suc (suc k)) s (compact_under compact_one s t i).0
unfolding compact_under
compact_under-Same levels prefixes compact_one k s t i keeps tree lev lt there small =
    let child = as_virtual s (s.entries t i).address in
    let loop = compact_loop compact_one 512 s child 0 0 true in
    let done =
      compact_loop-Looped levels prefixes compact_one (suc k) 512 s child 0 0 true keeps tree
        (tree.leads t i k lev lt there small).0 refl in
    let same = done.same in
    let entry = same.upper t i (omega (arith, lev)) in
    elim (Bool-cases loop.2) [
      | inr used ↦
          rw used (Same-weaken levels prefixes (suc k) (suc (suc k)) s loop.0 (omega arith) same)
      | inl empty ↦ rw empty (
          Same-trans levels prefixes (suc k) (suc (suc k)) s loop.0 (free_table loop.0 t i)
            (omega arith) same
            (free_table-Same levels prefixes loop.0 t i k same.tree lev (rw entry there)
              (rw entry small)
              (λ j below.
                rw (entry, same.find_kept (s.entries t i).address)
                  (done.none_left j empty (omega arith) below))))
    ]

compact_pd-Same : (levels prefixes : ℕ → ℕ) → Keeps levels prefixes 3 compact_pd
unfolding compact_pd
compact_pd-Same levels prefixes s t i tree lev lt =
    let e = s.entries t i in
    elim (Bool-cases e.present) [
      | inr absent ↦ rw absent (Same-refl levels prefixes 3 s tree)
      | inl there ↦ elim (Bool-cases e.attribute) [
        | inl marked ↦ rw (there, marked) (Same-refl levels prefixes 3 s tree)
        | inr small ↦
            rw (there, small)
              (compact_under-Same levels prefixes compact_pt 1 s t i
                (compact_pt-Same levels prefixes) tree lev lt there small)
      ]
    ]

compact_pdpt-Same : (levels prefixes : ℕ → ℕ) → Keeps levels prefixes 4 compact_pdpt
unfolding compact_pdpt
compact_pdpt-Same levels prefixes s t i tree lev lt = elim (Bool-cases (s.entries t i).present) [
  | inr absent ↦ rw absent (Same-refl levels prefixes 4 s tree)
  | inl there ↦ rw there (
      compact_under-Same levels prefixes compact_pd 2 s t i (compact_pd-Same levels prefixes) tree
        lev lt there (tree.top t i lev))
]

compact_pml4-Same :
    (levels prefixes : ℕ → ℕ) (left : ℕ) (s : PageTables) (i count : ℕ)
    → IsTree s levels prefixes
    → i + left ≡ 512
    → Same levels prefixes 4 s (compact_pml4 left s i count).0
unfolding compact_pml4
compact_pml4-Same levels prefixes zero s i count tree e = Same-refl levels prefixes 4 s tree
compact_pml4-Same levels prefixes (suc left) s i count tree e =
    let s' = (compact_pdpt s s.root i).0 in
    let first =
      compact_pdpt-Same levels prefixes s s.root i tree tree.root_level (omega (arith, e)) in
    Same-trans levels prefixes 4 4 s s' _ (omega arith) first (
      compact_pml4-Same levels prefixes left s' (i + 1) (count + (compact_pdpt s s.root i).1)
        first.tree (omega (arith, e)))

-- In a tree of tables `compact` keeps the tables a tree, and every address keeps its page size and the
-- physical address behind it.
pub get_backing_address-compact :
    (s : PageTables) (levels prefixes : ℕ → ℕ) (address : ℕ)
    → IsTree s levels prefixes
    → IsTree (compact s).0 levels prefixes
      × (get_backing_address (compact s).0 address ≡ get_backing_address s address)
      × (page_size_of (walk_unlocked (compact s).0 address)
          ≡ page_size_of (walk_unlocked s address))
unfolding compact
get_backing_address-compact s levels prefixes address tree =
    let same = compact_pml4-Same levels prefixes 512 s 0 0 tree refl in
    let s' = (compact_pml4 512 s 0 0).0 in
    let after = get_backing_address-resolve s' levels prefixes address same.tree in
    let before = get_backing_address-resolve s levels prefixes address tree in
    let page : resolve 3 s' s'.root (page_of address) ≡ resolve 3 s s.root (page_of address) =
      ap (λ r. resolve 3 s' r (page_of address)) same.root_kept
      ∙ same.resolve_kept 3 s.root (page_of address) tree.root_level in
    (
      same.tree,
      after.0 ∙ ap (λ r. backing r address) page ∙ sym before.0,
      after.1 ∙ ap size_of page ∙ sym before.1,
    )
