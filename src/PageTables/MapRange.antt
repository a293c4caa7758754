-- ===== src/PageTables/MapRange.antt =====
-- What `mapRange4k` does to the mapping of every page.
use mathlib.Core.Path.{subst}
use bez_os.PageTables.MapPage.{page_of, map4k-Mapped, Mapped}
use bez_os.PageTables.Chain.{is_small}
use bez_os.PageTables.Place.{Maps}
use bez_os.PageTables.Near.{crossings, missing-next}
use bez_os.LargePage.{AddressMapping}
use bez_os.PageTables.Tree.{missing, resolve, IsTree, AreFree}
use bez_os.TableList.{PageTableAllocation, page_size}
use bez_os.PageTables.Map.{map_range, Tables, map4k}
use bez_os.PageTables.{PageTables}
use bez_os.PageEntry.{Entry, PageBuilder, PageFlags, MemoryType, max_physical_address}
use bez_os.Range.{word, add_word}
use bez_os.Prelude.{
  ltb, length, ℕ, zero, suc, ◌+◌, ◌*◌, ◌≤◌, ◌<◌, ◌≡◌, refl, ◌∙◌, ◌⊎◌, inl, true, false, Option,
  some, List, arith,
}

-- The page is mapped by a last entry with the physical address, the flags and the type.
abbrev pub MapsPage : PageTables → PageBuilder → ℕ → PageFlags → MemoryType → ℕ → Type 0
MapsPage s pm page flags type paddr =
    (e : Entry) × (resolve 3 s s.root page ≡ some (0, e)) × Maps pm e flags type paddr

-- The list has the tables that the pages need.
abbrev pub AreEnough : PageTables → List PageTableAllocation → (first n : ℕ) → Type 0
AreEnough s buffer first zero = Unit
AreEnough s buffer first (suc n) =
    missing 3 s s.root first + crossings first (first + n) ≤ length buffer

AreEnough-next :
    (s : PageTables) (left : List PageTableAllocation) (first n : ℕ)
    → first + suc n ≤ 68719476736
    → missing 3 s s.root first ≡ 0
    → crossings first (first + n) ≤ length left
    → AreEnough s left (first + 1) n
AreEnough-next s left first zero fits done enough = tt
AreEnough-next s left first (suc n) fits done enough =
    let next = missing-next s s.root first (omega (arith, fits)) done in omega (arith, next, enough)

-- The tables after `n` pages from `first` on are mapped.
pub record RangeMapped (s : PageTables) (levels prefixes : ℕ → ℕ)
    (buffer : List PageTableAllocation) (first n paddr : ℕ) (flags : PageFlags) (type : MemoryType)
    (result : Option Tables) : Type 0 where
  pub tables : PageTables
  pub left : List PageTableAllocation
  pub levels' : ℕ → ℕ
  pub prefixes' : ℕ → ℕ
  pub returns : result ≡ some (tables, left)
  pub tree : IsTree tables levels' prefixes'
  pub free : AreFree tables levels' left
  pub builder_kept : tables.builder ≡ s.builder
  pub spare :
      (total r : ℕ)
      → total ≡ n + r
      → first + total ≤ 68719476736
      → AreEnough s buffer first total
      → AreEnough tables left (first + n) r
  pub inside :
      (i : ℕ) → i < n → MapsPage tables s.builder (first + i) flags type (paddr + i * page_size)
  pub outside :
      (other : ℕ)
      → other < 68719476736
      → (other < first) ⊎ (first + n ≤ other)
      → resolve 3 tables tables.root other ≡ resolve 3 s s.root other

map_range-over :
    (fuel : ℕ) (t : Tables) (m : AddressMapping) (flags : PageFlags) (type : MemoryType) (i : ℕ)
    → ltb i m.size ≡ false
    → map_range map4k page_size (suc fuel) t m flags type i ≡ some t
unfolding map_range
map_range-over fuel t m flags type i over = rw over refl

map_range-suc :
    (fuel : ℕ) (t t' : Tables) (m : AddressMapping) (flags : PageFlags) (type : MemoryType)
    (i next paddr vaddr : ℕ)
    → ltb i m.size ≡ true
    → add_word m.paddr i ≡ paddr
    → add_word m.vaddr i ≡ vaddr
    → add_word i page_size ≡ next
    → map4k t paddr vaddr flags type ≡ some t'
    → map_range map4k page_size (suc fuel) t m flags type i
      ≡ map_range map4k page_size fuel t' m flags type next
unfolding map_range
map_range-suc fuel t t' m flags type i next paddr vaddr under pa va step one =
    rw (under, pa, va, one, step) refl

-- The first page and the others after it.
RangeMapped-cons :
    (s : PageTables) (levels prefixes : ℕ → ℕ) (buffer : List PageTableAllocation)
    (first n paddr : ℕ) (flags : PageFlags) (type : MemoryType) (once all : Option Tables)
    (one : Mapped s levels prefixes buffer first paddr flags type once)
    → RangeMapped one.tables one.levels' one.prefixes' one.left
        (first + 1)
        n
        (paddr + page_size)
        flags
        type
        all
    → first + suc n ≤ 68719476736
    → RangeMapped s levels prefixes buffer first (suc n) paddr flags type all
RangeMapped-cons s levels prefixes buffer first n paddr flags type once all one rest fits = record {
  tables = rest.tables;
  left = rest.left;
  levels' = rest.levels';
  prefixes' = rest.prefixes';
  returns = rest.returns;
  tree = rest.tree;
  free = rest.free;
  builder_kept = rest.builder_kept ∙ one.builder_kept;
  spare = λ total r e below enough.
      let count : total ≡ suc (n + r) = omega (arith, e) in
      let all = subst (λ p. AreEnough s buffer first p) count enough in
      let later : AreEnough one.tables one.left (first + 1) (n + r) =
        AreEnough-next one.tables one.left first (n + r) (omega (arith, below, e)) one.complete
          (omega (arith, all, one.taken)) in
      subst (λ p. AreEnough rest.tables rest.left p r) (omega arith)
        (rest.spare (n + r) r refl (omega (arith, below, e)) later);
  inside = elim [
    | zero ↦ λ below. (
      one.entry,
      subst (λ p. resolve 3 rest.tables rest.tables.root p ≡ some (0, one.entry)) (omega arith)
          (rest.outside first (omega (arith, fits)) (inl (omega arith)) ∙ one.resolved),
      subst (λ p. Maps s.builder one.entry flags type p) (omega arith) one.maps,
    )
    | suc i ↦ λ below.
        let (e, resolved, maps) = rest.inside i (omega (arith, below)) in
        (
          e,
          subst (λ p. resolve 3 rest.tables rest.tables.root p ≡ some (0, e)) (omega arith)
              resolved,
          subst (λ p. Maps s.builder e flags type p) (omega arith)
              (subst (λ pm. Maps pm e flags type (paddr + page_size + i * page_size))
                one.builder_kept maps),
        )
  ];
  outside = λ other below out.
      rest.outside other below (ground (arith, out)) ∙ one.others other below (ground (arith, out));
}

pub map_range-RangeMapped :
    (n fuel : ℕ) (s : PageTables) (levels prefixes : ℕ → ℕ) (buffer : List PageTableAllocation)
    (m : AddressMapping) (flags : PageFlags) (type : MemoryType) (j base first paddr : ℕ)
    → IsTree s levels prefixes
    → AreFree s levels buffer
    → n < fuel
    → m.size ≡ (j + n) * page_size
    → m.vaddr + m.size ≤ word
    → m.vaddr + j * page_size ≡ base * 281474976710656 + first * page_size
    → first + n ≤ 68719476736
    → paddr ≡ m.paddr + j * page_size
    → m.paddr + m.size ≤ max_physical_address s.builder
    → max_physical_address s.builder < word
    → ((i : ℕ) → i < n → is_small (resolve 3 s s.root (first + i)) ≡ true)
    → AreEnough s buffer first n
    → RangeMapped s levels prefixes buffer first n paddr flags type
        (map_range map4k page_size fuel (s, buffer) m flags type (j * page_size))
map_range-RangeMapped n zero s levels prefixes buffer m flags type j base first paddr tree free lt
      size top start fits at phys wide small enough =
    absurd (omega (arith, lt))
map_range-RangeMapped zero (suc fuel) s levels prefixes buffer m flags type j base first paddr tree
      free lt size top start fits at phys wide small enough =
    let over : ltb (j * page_size) m.size ≡ false = ground (arith, size) in
    record {
      tables = s;
      left = buffer;
      levels' = levels;
      prefixes' = prefixes;
      returns = map_range-over fuel (s, buffer) m flags type (j * page_size) over;
      tree = tree;
      free = free;
      builder_kept = refl;
      spare = λ total r e below enough.
          let count : total ≡ r = omega (arith, e) in
          let here = subst (λ p. AreEnough s buffer first p) count enough in
          let place : first ≡ first + 0 = omega arith in
          subst (λ p. AreEnough s buffer p r) place here;
      inside = λ i lt. absurd (omega (arith, lt));
      outside = λ other lt out. refl;
    }
map_range-RangeMapped (suc n) (suc fuel) s levels prefixes buffer m flags type j base first paddr
      tree free lt size top start fits at phys wide small enough =
    let under : ltb (j * page_size) m.size ≡ true = ground (arith, size) in
    let va : add_word m.vaddr (j * page_size) ≡ m.vaddr + j * page_size =
      omega (arith, size, top) in
    let pa : add_word m.paddr (j * page_size) ≡ paddr = omega (arith, size, at, phys, wide) in
    let step : add_word (j * page_size) page_size ≡ suc j * page_size = omega (arith, size, top) in
    let here : page_of (m.vaddr + j * page_size) ≡ first = omega (arith, start, fits) in
    let one =
      map4k-Mapped s levels prefixes buffer (m.vaddr + j * page_size) first paddr flags type here
        tree free (omega (arith, enough))
        (subst (λ p. is_small (resolve 3 s s.root p) ≡ true) (omega arith) (small 0 (omega arith)))
        (omega (arith, size, at, phys)) in
    let rest =
      map_range-RangeMapped n fuel one.tables one.levels' one.prefixes' one.left m flags type
        (suc j) base (first + 1) (paddr + page_size) one.tree one.free (omega (arith, lt))
        (omega (arith, size)) top (omega (arith, start)) (omega (arith, fits)) (omega (arith, at))
        (rw one.builder_kept phys) (rw one.builder_kept wide)
        (λ i below.
          rw (one.others (first + 1 + i) (omega (arith, below, fits)) (λ e. omega (arith, e))) (
            subst (λ p. is_small (resolve 3 s s.root p) ≡ true) (omega arith)
              (small (suc i) (omega (arith, below)))))
        (AreEnough-next one.tables one.left first n (omega (arith, fits)) one.complete
          (omega (arith, enough, one.taken))) in
    rw
      (map_range-suc fuel (s, buffer) (one.tables, one.left) m flags type (j * page_size)
        (suc j * page_size) paddr (m.vaddr + j * page_size) under pa va step one.returns)
      (RangeMapped-cons s levels prefixes buffer first n paddr flags type _ _ one rest fits)
