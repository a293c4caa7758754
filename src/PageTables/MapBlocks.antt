-- ===== src/PageTables/MapBlocks.antt =====
-- What `mapRange2m` does to the mapping of every page.
use bez_os.PageTables.LargeEntry.{is_not_huge}
use bez_os.PageTables.MapPage.{page_of}
use bez_os.PageTables.MapLarge.{MapsLarge}
use bez_os.Range.{add_word, word}
use bez_os.PageTables.Near.{missing-block}
use bez_os.PageTables.MapBlock.{Mapped2m, map2m-Mapped2m}
use bez_os.PageTables.MapRange.{AreEnough}
use bez_os.LargePage.{AddressMapping, large_page_size}
use bez_os.PageTables.Tree.{missing, IsTree, AreFree, resolve, high}
use bez_os.TableList.{PageTableAllocation, page_size}
use bez_os.PageTables.Map.{map_range, Tables, map2m}
use bez_os.PageTables.{PageTables}
use mathlib.Core.Path.{subst}
use bez_os.PageEntry.{Entry, PageFlags, MemoryType, max_physical_address}
use bez_os.Prelude.{
  ltb, Bool-cases, length, ℕ, zero, suc, ◌+◌, ◌-◌, ◌*◌, ◌/◌, ◌%◌, ◌≤◌, ◌<◌, ◌≡◌, refl, ◌∙◌, ◌⊎◌,
  inl, inr, true, false, Option, some, List, arith,
}

-- The tables after `n` large pages from the page `first` on are mapped.
pub record BlocksMapped (s : PageTables) (levels prefixes : ℕ → ℕ)
    (buffer : List PageTableAllocation) (first n paddr : ℕ) (flags : PageFlags)
    (result : Option Tables) : Type 0 where
  pub tables : PageTables
  pub left : List PageTableAllocation
  pub levels' : ℕ → ℕ
  pub prefixes' : ℕ → ℕ
  pub returns : result ≡ some (tables, left)
  pub tree : IsTree tables levels' prefixes'
  pub free : AreFree tables levels' left
  pub builder_kept : tables.builder ≡ s.builder
  pub spare :
      (total r : ℕ)
      → total ≡ n * 512 + r
      → first + total ≤ 68719476736
      → AreEnough s buffer first total
      → AreEnough tables left (first + n * 512) r
  pub inside :
      (q : ℕ)
      → first ≤ q
      → q < first + n * 512
      → (e : Entry) × (resolve 3 tables tables.root q ≡ some (1, e))
        × MapsLarge s.builder e flags (paddr + (q - first) / 512 * large_page_size)
  pub outside :
      (other : ℕ)
      → other < 68719476736
      → (other < first) ⊎ (first + n * 512 ≤ other)
      → resolve 3 tables tables.root other ≡ resolve 3 s s.root other

-- The next large page and those after it.
AreEnough-block :
    (s s' : PageTables) (buffer left : List PageTableAllocation) (first n : ℕ)
    → first + (512 + n) ≤ 68719476736
    → missing 3 s' s'.root first ≡ 0
    → length buffer ≤ length left + missing 3 s s.root first
    → AreEnough s buffer first (512 + n)
    → AreEnough s' left (first + 512) n
AreEnough-block s s' buffer left first zero fits done taken enough = tt
AreEnough-block s s' buffer left first (suc n) fits done taken enough =
    let next = missing-block s' s'.root first (omega (arith, fits)) done in
    let total : 512 + suc n ≡ suc (512 + n) = omega arith in
    let all = subst (λ p. AreEnough s buffer first p) total enough in
    omega (arith, next, all, taken)

map_range-end :
    (fuel : ℕ) (t : Tables) (m : AddressMapping) (flags : PageFlags) (type : MemoryType) (i : ℕ)
    → ltb i m.size ≡ false
    → map_range map2m large_page_size (suc fuel) t m flags type i ≡ some t
unfolding map_range
map_range-end fuel t m flags type i over = rw over refl

map_range-block :
    (fuel : ℕ) (t t' : Tables) (m : AddressMapping) (flags : PageFlags) (type : MemoryType)
    (i next paddr vaddr : ℕ)
    → ltb i m.size ≡ true
    → add_word m.paddr i ≡ paddr
    → add_word m.vaddr i ≡ vaddr
    → add_word i large_page_size ≡ next
    → map2m t paddr vaddr flags type ≡ some t'
    → map_range map2m large_page_size (suc fuel) t m flags type i
      ≡ map_range map2m large_page_size fuel t' m flags type next
unfolding map_range
map_range-block fuel t t' m flags type i next paddr vaddr under pa va step one =
    rw (under, pa, va, one, step) refl

-- The first large page and the others after it.
BlocksMapped-cons :
    (s : PageTables) (levels prefixes : ℕ → ℕ) (buffer : List PageTableAllocation)
    (first n paddr : ℕ) (flags : PageFlags) (once all : Option Tables)
    (one : Mapped2m s levels prefixes buffer first paddr flags once)
    → BlocksMapped one.tables one.levels' one.prefixes' one.left
        (first + 512)
        n
        (paddr + large_page_size)
        flags
        all
    → first % 512 ≡ 0
    → first + suc n * 512 ≤ 68719476736
    → BlocksMapped s levels prefixes buffer first (suc n) paddr flags all
BlocksMapped-cons s levels prefixes buffer first n paddr flags once all one rest aligned fits =
    record {
      tables = rest.tables;
      left = rest.left;
      levels' = rest.levels';
      prefixes' = rest.prefixes';
      returns = rest.returns;
      tree = rest.tree;
      free = rest.free;
      builder_kept = rest.builder_kept ∙ one.builder_kept;
      spare = λ total r e below enough.
          let count : total ≡ 512 + (n * 512 + r) = omega (arith, e) in
          let all = subst (λ p. AreEnough s buffer first p) count enough in
          let later =
            AreEnough-block s one.tables buffer one.left first (n * 512 + r)
              (omega (arith, below, e)) one.complete one.taken all in
          let place : first + 512 + n * 512 ≡ first + suc n * 512 = omega arith in
          subst (λ p. AreEnough rest.tables rest.left p r) place
            (rest.spare (n * 512 + r) r refl (omega (arith, below, e)) later);
      inside = λ q lo hi. elim (Bool-cases (ltb q (first + 512))) [
        | inl low ↦
            let same : high 1 q ≡ high 1 first = ground (arith, lo, aligned) in
            let here : paddr ≡ paddr + (q - first) / 512 * large_page_size = ground (arith, lo) in
            (
              one.entry,
              rest.outside q (omega (arith, fits, hi)) (inl (ground arith)) ∙ one.resolved q same,
              subst (λ p. MapsLarge s.builder one.entry flags p) here one.maps,
            )
        | inr far ↦
            let (e, resolved, maps) = rest.inside q (ground arith) (omega (arith, hi)) in
            let there : paddr + large_page_size + (q - (first + 512)) / 512 * large_page_size
                ≡ paddr + (q - first) / 512 * large_page_size =
              ground (arith, lo) in
            (
              e,
              resolved,
              subst (λ p. MapsLarge s.builder e flags p) there
                  (subst
                    (λ pm.
                      MapsLarge pm e flags
                        (paddr + large_page_size + (q - (first + 512)) / 512 * large_page_size))
                    one.builder_kept maps),
            )
      ];
      outside = λ other below out.
          rest.outside other below (ground (arith, out))
          ∙ one.others other below (ground (arith, out, aligned));
    }

pub map_range-BlocksMapped :
    (n fuel : ℕ) (s : PageTables) (levels prefixes : ℕ → ℕ) (buffer : List PageTableAllocation)
    (m : AddressMapping) (flags : PageFlags) (type : MemoryType) (j base first paddr : ℕ)
    → IsTree s levels prefixes
    → AreFree s levels buffer
    → n < fuel
    → m.size ≡ (j + n) * large_page_size
    → m.vaddr + m.size ≤ word
    → m.vaddr + j * large_page_size ≡ base * 281474976710656 + first * page_size
    → first % 512 ≡ 0
    → first + n * 512 ≤ 68719476736
    → paddr ≡ m.paddr + j * large_page_size
    → m.paddr + m.size ≤ max_physical_address s.builder
    → max_physical_address s.builder < word
    → ((q : ℕ) → first ≤ q → q < first + n * 512 → is_not_huge (resolve 3 s s.root q) ≡ true)
    → AreEnough s buffer first (n * 512)
    → BlocksMapped s levels prefixes buffer first n paddr flags
        (map_range map2m large_page_size fuel (s, buffer) m flags type (j * large_page_size))
map_range-BlocksMapped n zero s levels prefixes buffer m flags type j base first paddr tree free lt
      size top start aligned fits at phys wide small enough =
    absurd (omega (arith, lt))
map_range-BlocksMapped zero (suc fuel) s levels prefixes buffer m flags type j base first paddr tree
      free lt size top start aligned fits at phys wide small enough =
    let over : ltb (j * large_page_size) m.size ≡ false = ground (arith, size) in
    record {
      tables = s;
      left = buffer;
      levels' = levels;
      prefixes' = prefixes;
      returns = map_range-end fuel (s, buffer) m flags type (j * large_page_size) over;
      tree = tree;
      free = free;
      builder_kept = refl;
      spare = λ total r e below enough.
          let count : total ≡ r = omega (arith, e) in
          let here = subst (λ p. AreEnough s buffer first p) count enough in
          let place : first ≡ first + 0 * 512 = omega arith in
          subst (λ p. AreEnough s buffer p r) place here;
      inside = λ q lo hi. absurd (omega (arith, lo, hi));
      outside = λ other lt out. refl;
    }
map_range-BlocksMapped (suc n) (suc fuel) s levels prefixes buffer m flags type j base first paddr
      tree free lt size top start aligned fits at phys wide small enough =
    let under : ltb (j * large_page_size) m.size ≡ true = ground (arith, size) in
    let va : add_word m.vaddr (j * large_page_size) ≡ m.vaddr + j * large_page_size =
      omega (arith, size, top) in
    let pa : add_word m.paddr (j * large_page_size) ≡ paddr = omega (arith, size, at, phys, wide) in
    let step : add_word (j * large_page_size) large_page_size ≡ suc j * large_page_size =
      omega (arith, size, top) in
    let here : page_of (m.vaddr + j * large_page_size) ≡ first = omega (arith, start, fits) in
    let count : suc n * 512 ≡ suc (511 + n * 512) = omega arith in
    let all = subst (λ p. AreEnough s buffer first p) count enough in
    let one =
      map2m-Mapped2m s levels prefixes buffer (m.vaddr + j * large_page_size) first paddr flags type
        here tree free (omega (arith, all)) (small first (omega arith) (omega arith))
        (omega (arith, size, at, phys)) in
    let blocks : suc n * 512 ≡ 512 + n * 512 = omega arith in
    let rest =
      map_range-BlocksMapped n fuel one.tables one.levels' one.prefixes' one.left m flags type
        (suc j) base (first + 512) (paddr + large_page_size) one.tree one.free (omega (arith, lt))
        (omega (arith, size)) top (omega (arith, start)) (omega (arith, aligned))
        (omega (arith, fits)) (omega (arith, at)) (rw one.builder_kept phys)
        (rw one.builder_kept wide)
        (λ q lo hi.
          rw (one.others q (omega (arith, hi, fits)) (λ e. omega (arith, e, lo, aligned)))
            (small q (omega (arith, lo)) (omega (arith, hi))))
        (AreEnough-block s one.tables buffer one.left first (n * 512) (omega (arith, fits))
          one.complete one.taken (subst (λ p. AreEnough s buffer first p) blocks enough)) in
    rw
      (map_range-block fuel (s, buffer) (one.tables, one.left) m flags type (j * large_page_size)
        (suc j * large_page_size) paddr (m.vaddr + j * large_page_size) under pa va step
        one.returns)
      (BlocksMapped-cons s levels prefixes buffer first n paddr flags _ _ one rest aligned fits)
