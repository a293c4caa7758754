-- ===== src/PageTables/Filled.antt =====
-- Mapped pages, whatever the size of the entries that map them.
use bez_os.PageEntry.Types.{masked-eq}
use bez_os.PageTables.MapBlocks.{BlocksMapped}
use bez_os.LargePage.{large_page_size}
use bez_os.PageTables.MapRange.{AreEnough, RangeMapped}
use bez_os.PageTables.Tree.{IsTree, resolve, AreFree}
use bez_os.PageTables.Map.{Tables}
use bez_os.PageTables.Backing.{backing}
use bez_os.PageEntry.{PageFlags, MemoryType, max_physical_address, masked}
use bez_os.PageTables.MapPage.{page_of}
use bez_os.TableList.{PageTableAllocation, page_size}
use bez_os.PageTables.{PageTables}
use mathlib.Core.Path.{subst}
use bez_os.Range.{word, add_word}
use bez_os.Prelude.{
  ltb, Bool-cases, ℕ, ◌+◌, ◌-◌, ◌*◌, ◌/◌, ◌%◌, ◌≤◌, ◌<◌, ◌≡◌, refl, sym, ap, ◌∙◌, ◌⊎◌, inl, inr,
  Option, some, List, arith, mod-eq_of_lt,
}

-- The addresses of the page are mapped to the physical address at their offset.
abbrev pub Backs : PageTables → (page paddr : ℕ) → Type 0
Backs s page paddr =
    (address : ℕ)
    → page_of address ≡ page
    → backing (resolve 3 s s.root page) address ≡ paddr + address % page_size

-- The tables after `n` pages from `first` on are mapped.
pub record Filled (s : PageTables) (levels prefixes : ℕ → ℕ) (buffer : List PageTableAllocation)
    (first n paddr : ℕ) (result : Option Tables) : Type 0 where
  pub tables : PageTables
  pub left : List PageTableAllocation
  pub levels' : ℕ → ℕ
  pub prefixes' : ℕ → ℕ
  pub returns : result ≡ some (tables, left)
  pub tree : IsTree tables levels' prefixes'
  pub free : AreFree tables levels' left
  pub builder_kept : tables.builder ≡ s.builder
  pub spare :
      (total r : ℕ)
      → total ≡ n + r
      → first + total ≤ 68719476736
      → AreEnough s buffer first total
      → AreEnough tables left (first + n) r
  pub inside : (i : ℕ) → i < n → Backs tables (first + i) (paddr + i * page_size)
  pub outside :
      (other : ℕ)
      → other < 68719476736
      → (other < first) ⊎ (first + n ≤ other)
      → resolve 3 tables tables.root other ≡ resolve 3 s s.root other

pub RangeMapped-Filled :
    (s : PageTables) (levels prefixes : ℕ → ℕ) (buffer : List PageTableAllocation)
    (first n paddr : ℕ) (flags : PageFlags) (type : MemoryType) (result : Option Tables)
    → paddr % page_size ≡ 0
    → paddr + n * page_size ≤ max_physical_address s.builder
    → max_physical_address s.builder < word
    → RangeMapped s levels prefixes buffer first n paddr flags type result
    → Filled s levels prefixes buffer first n paddr result
RangeMapped-Filled s levels prefixes buffer first n paddr flags type result aligned fits wide r =
    record {
      tables = r.tables;
      left = r.left;
      levels' = r.levels';
      prefixes' = r.prefixes';
      returns = r.returns;
      tree = r.tree;
      free = r.free;
      builder_kept = r.builder_kept;
      spare = r.spare;
      inside = λ i lt address page.
          let (e, resolved, maps) = r.inside i lt in
          let whole =
            masked-eq s.builder (paddr + i * page_size) (omega (arith, aligned))
              (omega (arith, lt, fits)) in
          ap (λ o. backing o address) resolved
          ∙ ap (λ a. add_word a (address % 4096)) (maps.address ∙ whole)
          ∙ mod-eq_of_lt (omega (arith, lt, fits, wide));
      outside = r.outside;
    }

pub BlocksMapped-Filled :
    (s : PageTables) (levels prefixes : ℕ → ℕ) (buffer : List PageTableAllocation)
    (first n paddr : ℕ) (flags : PageFlags) (result : Option Tables)
    → first % 512 ≡ 0
    → paddr % page_size ≡ 0
    → paddr + n * large_page_size ≤ max_physical_address s.builder
    → max_physical_address s.builder < word
    → BlocksMapped s levels prefixes buffer first n paddr flags result
    → Filled s levels prefixes buffer first (n * 512) paddr result
BlocksMapped-Filled s levels prefixes buffer first n paddr flags result start aligned fits wide r =
    record {
      tables = r.tables;
      left = r.left;
      levels' = r.levels';
      prefixes' = r.prefixes';
      returns = r.returns;
      tree = r.tree;
      free = r.free;
      builder_kept = r.builder_kept;
      spare = r.spare;
      inside = λ i lt address page.
          let (e, resolved, maps) = r.inside (first + i) (omega arith) (omega (arith, lt)) in
          let place : (first + i - first) / 512 ≡ i / 512 = omega arith in
          let whole =
            masked-eq s.builder (paddr + i / 512 * large_page_size) (omega (arith, aligned))
              (omega (arith, lt, fits)) in
          let at : e.address ≡ paddr + i / 512 * large_page_size =
            maps.address ∙ ap (λ k. masked s.builder (paddr + k * large_page_size)) place ∙ whole in
          ap (λ o. backing o address) resolved
          ∙ ap (λ a. add_word (add_word a (address / 4096 % 512 * 4096)) (address % 4096)) at
          ∙ large_offset i address lt page;
      outside = r.outside;
    }
  where
    large_offset :
        (i address : ℕ)
        → i < n * 512
        → page_of address ≡ first + i
        → add_word
            (add_word (paddr + i / 512 * large_page_size) (address / 4096 % 512 * 4096))
            (address % 4096)
          ≡ paddr + i * page_size + address % page_size
    large_offset i address lt page = omega (arith, lt, page, start, fits, wide)

-- No pages.
pub Filled-none :
    (s : PageTables) (levels prefixes : ℕ → ℕ) (buffer : List PageTableAllocation) (first paddr : ℕ)
    → IsTree s levels prefixes
    → AreFree s levels buffer
    → Filled s levels prefixes buffer first 0 paddr (some (s, buffer))
Filled-none s levels prefixes buffer first paddr tree free = record {
  tables = s;
  left = buffer;
  levels' = levels;
  prefixes' = prefixes;
  returns = refl;
  tree = tree;
  free = free;
  builder_kept = refl;
  spare = λ total r e below enough.
      let count : total ≡ r = omega (arith, e) in
      let here = subst (λ p. AreEnough s buffer first p) count enough in
      let place : first ≡ first + 0 = omega arith in subst (λ p. AreEnough s buffer p r) place here;
  inside = λ i lt. absurd (omega (arith, lt));
  outside = λ other lt out. refl;
}

-- Pages, and then the pages that follow them.
pub Filled-trans :
    (s : PageTables) (levels prefixes : ℕ → ℕ) (buffer : List PageTableAllocation)
    (first n k paddr after : ℕ) (once all : Option Tables)
    (a : Filled s levels prefixes buffer first n paddr once)
    → Filled a.tables a.levels' a.prefixes' a.left (first + n) k after all
    → after ≡ paddr + n * page_size
    → first + (n + k) ≤ 68719476736
    → Filled s levels prefixes buffer first (n + k) paddr all
Filled-trans s levels prefixes buffer first n k paddr after once all a b next fits = record {
  tables = b.tables;
  left = b.left;
  levels' = b.levels';
  prefixes' = b.prefixes';
  returns = b.returns;
  tree = b.tree;
  free = b.free;
  builder_kept = b.builder_kept ∙ a.builder_kept;
  spare = λ total r e below enough.
      let place : first + n + k ≡ first + (n + k) = omega arith in
      subst (λ p. AreEnough b.tables b.left p r) place
        (b.spare (k + r) r refl (omega (arith, e, below))
          (a.spare total (k + r) (omega (arith, e)) below enough));
  inside = λ i lt address page. elim (Bool-cases (ltb i n)) [
    | inl low ↦
        ap (λ o. backing o address)
          (b.outside (first + i) (omega (arith, fits, lt)) (inl (ground arith)))
        ∙ a.inside i (ground arith) address page
    | inr far ↦
        let place : first + n + (i - n) ≡ first + i = ground arith in
        let at : after + (i - n) * page_size ≡ paddr + i * page_size = ground (arith, next) in
        subst
          (λ p.
            backing (resolve 3 b.tables b.tables.root p) address
            ≡ paddr + i * page_size + address % page_size)
          place
          (b.inside (i - n) (ground (arith, lt)) address (page ∙ sym place)
            ∙ ap (λ p. p + address % page_size) at)
  ];
  outside = λ other below out.
      b.outside other below (ground (arith, out)) ∙ a.outside other below (ground (arith, out));
}
