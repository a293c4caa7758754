-- ===== src/PageTables/Grow.antt =====
-- A new table under an absent entry: every page is mapped as before.
use bez_os.TableList.Pages.{holds}
use bez_os.PageTables.Tree.{IsTree, resolve, high, AreFree}
use bez_os.TableList.{PageTableAllocation}
use bez_os.PageEntry.{no_entry, Entry}
use bez_os.PageTables.{PageTables, as_virtual, as_physical}
use bez_os.LookupTable.{find}
use bez_os.Prelude.Store.{write}
use bez_os.Prelude.{
  ◌==◌, Bool-cases, ℕ, zero, suc, ◌+◌, ◌*◌, ◌%◌, ◌<◌, ◌≡◌, refl, sym, ap, ◌∙◌, ◌≢◌, ◌⊎◌, inl, inr,
  true, false, none, List, [], ◌∷◌, arith,
}

-- The tables `s'` have a new empty table at the block, under an entry of `s` that was absent.
pub record Adds (s s' : PageTables) (levels : ℕ → ℕ) (t0 i0 k0 block : ℕ) : Type 0 where
  pub builder_kept : s'.builder ≡ s.builder
  pub root_kept : s'.root ≡ s.root
  pub flags_kept : s'.middle_flags ≡ s.middle_flags
  pub find_kept : (a : ℕ) → find s'.cache a ≡ find s.cache a
  pub was_free : levels block ≡ 0
  pub level : levels t0 ≡ suc (suc k0)
  pub was_absent : (s.entries t0 i0).present ≡ false
  pub there : (s'.entries t0 i0).present ≡ true
  pub small : (s'.entries t0 i0).attribute ≡ false
  pub points : as_virtual s' (s'.entries t0 i0).address ≡ block
  pub empty : (i : ℕ) → s'.entries block i ≡ no_entry
  pub others : (t i : ℕ) → levels t ≢ 0 → (t ≢ t0) ⊎ (i ≢ i0) → s'.entries t i ≡ s.entries t i

resolve-empty :
    (k : ℕ) (s : PageTables) (t page : ℕ)
    → ((i : ℕ) → s.entries t i ≡ no_entry)
    → resolve k s t page ≡ none
resolve-empty zero s t page e = rw (e (page % 512)) refl
resolve-empty (suc k) s t page e = rw (e (high (suc k) page % 512)) refl

AreFree-kept :
    (s s' : PageTables) (levels levels' : ℕ → ℕ) (block : ℕ) (ps : List PageTableAllocation)
    → s'.builder ≡ s.builder
    → ((a : ℕ) → find s'.cache a ≡ find s.cache a)
    → ((t : ℕ) → t ≢ block → levels' t ≡ levels t)
    → holds block ps ≡ false
    → AreFree s levels ps
    → AreFree s' levels' ps
AreFree-kept s s' levels levels' block [] b f l out free = free
AreFree-kept s s' levels levels' block (p ∷ ps) b f l out free = (
  rw (l p.block (ground (arith, out))) free.0,
  free.1,
  rw (f (as_physical p)) free.2,
  rw b free.3,
  rw b free.4,
  AreFree-kept s s' levels levels' block ps b f l (ground (arith, out)) free.5,
)

abbrev pub OneOf : (t t0 i i0 : ℕ) → Type 0
OneOf t t0 i i0 = ((t ≡ t0) × (i ≡ i0)) ⊎ ((t ≢ t0) ⊎ (i ≢ i0))

pub same_place : (t t0 i i0 : ℕ) → OneOf t t0 i i0
same_place t t0 i i0 = elim (Bool-cases (t == t0)) [
  | inl a ↦ elim (Bool-cases (i == i0)) [
    | inl b ↦ inl (ground arith, ground arith)
    | inr b ↦ inr (inr (ground arith))
  ]
  | inr a ↦ inr (inl (ground arith))
]

module _ (s s' : PageTables) (levels prefixes : ℕ → ℕ) (tree : IsTree s levels prefixes)
    (t0 i0 k0 block : ℕ) (adds : Adds s s' levels t0 i0 k0 block) where
  pub resolve-grow : (k t page : ℕ) → levels t ≡ suc k → resolve k s' t page ≡ resolve k s t page
  resolve-grow zero t page lev =
      rw
        (adds.others t (page % 512) (omega (arith, lev))
          (inl λ e. omega (arith, lev, adds.level, ap levels e)))
        refl
  resolve-grow (suc k) t page lev =
      let i = high (suc k) page % 512 in
      let e = s.entries t i in
      elim (same_place t t0 i i0) [
        | inl (here, there) ↦
            let level : k ≡ k0 = omega (arith, lev, adds.level, ap levels here) in
            rw (here, there, adds.was_absent, adds.there, adds.small, adds.points)
              (resolve-empty k s' block page adds.empty)
        | inr other ↦ rw (adds.others t i (omega (arith, lev)) other) (elim (Bool-cases e.present) [
          | inr absent ↦ rw absent refl
          | inl there ↦ elim (Bool-cases e.attribute) [
            | inl large ↦ rw (there, large) refl
            | inr small ↦
                rw (there, small, adds.find_kept e.address)
                  (resolve-grow k (as_virtual s e.address) page
                    (tree.leads t i k lev (omega arith) there small).0)
          ]
        ])
      ]

  abbrev pub grown_levels : ℕ → ℕ
  grown_levels = write levels block (suc k0)

  abbrev pub grown_prefixes : ℕ → ℕ
  grown_prefixes = write prefixes block (prefixes t0 * 512 + i0)

  elsewhere : (t : ℕ) → levels t ≢ 0 → (t == block) ≡ false
  elsewhere t lev = elim (Bool-cases (t == block)) [
    | inl same ↦
        let here : t ≡ block = ground arith in absurd (lev (ap levels here ∙ adds.was_free))
    | inr other ↦ other
  ]

  bare : (i : ℕ) → (s'.entries block i).present ≡ false
  bare i = ap (λ (e : Entry). e.present) (adds.empty i)

  not_marked : (i : ℕ) → (s'.entries block i).attribute ≡ false
  not_marked i = ap (λ (e : Entry). e.attribute) (adds.empty i)

  -- Where an entry of an older table leads.
  grow-leads :
      (t i k : ℕ)
      → levels t ≡ suc (suc k)
      → i < 512
      → (s'.entries t i).present ≡ true
      → (s'.entries t i).attribute ≡ false
      → (grown_levels (as_virtual s' (s'.entries t i).address) ≡ suc k)
        × (grown_prefixes (as_virtual s' (s'.entries t i).address) ≡ prefixes t * 512 + i)
  grow-leads t i k lev lt there small = elim (same_place t t0 i i0) [
    | inl (here, at) ↦
        let level : k ≡ k0 = omega (arith, lev, adds.level, ap levels here) in
        let same : (block == block) ≡ true = ground arith in
        rw (here, at, adds.points, same, level) (refl, refl)
    | inr other ↦
        let same = adds.others t i (omega (arith, lev)) other in
        let child =
          tree.leads t i k lev lt (sym (ap (λ (e : Entry). e.present) same) ∙ there)
            (sym (ap (λ (e : Entry). e.attribute) same) ∙ small) in
        rw
          (
            same,
            adds.find_kept (s.entries t i).address,
            elsewhere (find s.cache (s.entries t i).address) (omega (arith, child.0)),
          )
          child
  ]

  pub grow-IsTree : IsTree s' grown_levels grown_prefixes
  grow-IsTree = record {
    root_level =
        rw (adds.root_kept, elsewhere s.root (omega (arith, tree.root_level))) tree.root_level;
    root_prefix =
        rw (adds.root_kept, elsewhere s.root (omega (arith, tree.root_level))) tree.root_prefix;
    leads = λ t i k lev lt there small. elim (Bool-cases (t == block)) [
      | inl new ↦
          let here : t ≡ block = ground arith in
          absurd (ground (arith, bare i, ap (λ u. (s'.entries u i).present) here))
      | inr old ↦ rw old (grow-leads t i k (ground arith) lt there small)
    ];
    top = λ t i lev. elim (Bool-cases (t == block)) [
      | inl new ↦ let here : t ≡ block = ground arith in rw here (not_marked i)
      | inr old ↦ elim (same_place t t0 i i0) [
        | inl (here, at) ↦ rw (here, at) adds.small
        | inr other ↦
            let level : levels t ≡ 4 = ground arith in
            rw (adds.others t i (omega (arith, level)) other) (tree.top t i level)
      ]
    ];
    blank = λ t i k lev absent. elim (Bool-cases (t == block)) [
      | inl new ↦ let here : t ≡ block = ground arith in rw here (not_marked i)
      | inr old ↦ elim (same_place t t0 i i0) [
        | inl (here, at) ↦ rw (here, at) adds.small
        | inr other ↦
            let level : levels t ≡ suc (suc k) = ground arith in
            let same = adds.others t i (omega (arith, level)) other in
            rw same (tree.blank t i k level (sym (ap (λ (e : Entry). e.present) same) ∙ absent))
      ]
    ];
  }

  pub grow-AreFree :
      (ps : List PageTableAllocation)
      → holds block ps ≡ false
      → AreFree s levels ps
      → AreFree s' grown_levels ps
  grow-AreFree ps out free =
      AreFree-kept s s' levels grown_levels block ps adds.builder_kept adds.find_kept
        (λ t ne. ground arith) out free

  -- What is known of an older table stays.
  pub grown_levels_kept : (t : ℕ) → levels t ≢ 0 → grown_levels t ≡ levels t
  grown_levels_kept t lev = rw (elsewhere t lev) refl

  pub grown_prefixes_kept : (t : ℕ) → levels t ≢ 0 → grown_prefixes t ≡ prefixes t
  grown_prefixes_kept t lev = rw (elsewhere t lev) refl
