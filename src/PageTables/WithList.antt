-- ===== src/PageTables/WithList.antt =====
-- What `mapWithList` does to the mapping of every address.
use mathlib.Core.Path.{subst}
use bez_os.PageTables.Filled.{Filled, Filled-trans}
use bez_os.LargePage.Thirds.{Thirds, align_large_range-Thirds}
use bez_os.PageTables.Portions.{
  IsReady, Lies, fill_end, IsReady-rest, IsReady-less, fill_2m, fill_4k,
}
use bez_os.TableList.{PageTableAllocation, page_size}
use bez_os.PageTables.{PageTables}
use bez_os.PageEntry.{PageFlags, MemoryType, max_physical_address}
use bez_os.Range.{add_word, word}
use bez_os.PageTables.Map.{map_with_list, Tables, map_range_4k, map_range_2m}
use bez_os.Range.Pair.{roundup, rounddown}
use bez_os.LargePage.{
  is_large_page_eligible, AddressMapping, large_page_size, align_large_range_head,
  align_large_range_body, align_large_range_tail,
}
use bez_os.Prelude.{
  ltb, ◌==◌, if◌then◌else◌, Bool-cases, ℕ, ◌+◌, ◌*◌, ◌/◌, ◌≤◌, ◌<◌, ◌≡◌, refl, sym, ◌∙◌, inl, inr,
  true, false, some, List, arith,
}

-- Eligibility has the second test of `mapWithList` in it.
eligible-fits :
    (m : AddressMapping)
    → is_large_page_eligible m ≡ true
    → ltb (roundup m.paddr large_page_size) (rounddown (add_word m.paddr m.size) large_page_size)
      ≡ true
unfolding is_large_page_eligible
eligible-fits m e = ground (arith, e)

map_with_list-large :
    (fuel : ℕ) (t t1 t2 t3 : Tables) (m : AddressMapping) (flags : PageFlags) (type : MemoryType)
    → is_large_page_eligible m ≡ true
    → (if (align_large_range_head m).size == 0
        then some t
        else map_range_4k fuel t (align_large_range_head m) flags type)
      ≡ some t1
    → map_range_2m fuel t1 (align_large_range_body m) flags type ≡ some t2
    → (if (align_large_range_tail m).size == 0
        then some t2
        else map_range_4k fuel t2 (align_large_range_tail m) flags type)
      ≡ some t3
    → map_with_list fuel t m flags type ≡ some t3
unfolding map_with_list
map_with_list-large fuel t t1 t2 t3 m flags type eligible e1 e2 e3 =
    rw (eligible, eligible-fits m eligible, e1, e2, e3) refl

map_with_list-small :
    (fuel : ℕ) (t : Tables) (m : AddressMapping) (flags : PageFlags) (type : MemoryType)
    → is_large_page_eligible m ≡ false
    → map_with_list fuel t m flags type ≡ map_range_4k fuel t m flags type
unfolding map_with_list
map_with_list-small fuel t m flags type plain = rw plain refl

module _ (s : PageTables) (levels prefixes : ℕ → ℕ) (buffer : List PageTableAllocation)
    (m : AddressMapping) (flags : PageFlags) (type : MemoryType) (base first n fuel : ℕ)
    (ready : IsReady s levels prefixes buffer first n) (lies : Lies m base first n)
    (top : m.vaddr + m.size + large_page_size ≤ word)
    (phys : m.paddr + m.size ≤ max_physical_address s.builder)
    (room : max_physical_address s.builder + large_page_size ≤ word) (lt : n < fuel)
    (eligible : is_large_page_eligible m ≡ true) where
  abbrev head : AddressMapping
  head = align_large_range_head m

  abbrev body : AddressMapping
  body = align_large_range_body m

  abbrev tail : AddressMapping
  tail = align_large_range_tail m

  thirds : Thirds m head body tail
  thirds = align_large_range-Thirds m top (omega (arith, phys, room)) eligible

  abbrev pages : AddressMapping → ℕ
  pages part = part.size / page_size

  abbrev blocks : ℕ
  blocks = body.size / large_page_size

  count : n ≡ pages head + (blocks * 512 + pages tail)
  count = omega (arith, thirds, lies)

  all-IsReady : IsReady s levels prefixes buffer first (pages head + (blocks * 512 + pages tail))
  all-IsReady = subst (λ k. IsReady s levels prefixes buffer first k) count ready

  a :
      Filled s levels prefixes buffer first
        (pages head)
        head.paddr
        (if head.size == 0 then some (s, buffer) else map_range_4k fuel (s, buffer) head flags type)
  a =
      fill_end s levels prefixes buffer head flags type base first (pages head) fuel
        (IsReady-less s levels prefixes buffer first (pages head)
          (pages head + (blocks * 512 + pages tail)) (omega arith) all-IsReady)
        (record {
          size = omega (arith, thirds, lies);
          top = omega (arith, thirds, lies);
          start = omega (arith, thirds, lies);
          within = omega (arith, count, lies);
          aligned = omega (arith, thirds, lies);
        })
        (omega (arith, thirds, phys)) (omega (arith, count, lt))

  a-IsReady :
      IsReady a.tables a.levels' a.prefixes' a.left (first + pages head) (blocks * 512 + pages tail)
  a-IsReady =
      IsReady-rest s levels prefixes buffer first (pages head) (blocks * 512 + pages tail)
        head.paddr _ a (omega (arith, count, lies)) all-IsReady

  b :
      Filled a.tables a.levels' a.prefixes' a.left
        (first + pages head)
        (blocks * 512)
        body.paddr
        (map_range_2m fuel (a.tables, a.left) body flags type)
  b =
      fill_2m a.tables a.levels' a.prefixes' a.left body flags type base (first + pages head) blocks
        fuel
        (IsReady-less a.tables a.levels' a.prefixes' a.left (first + pages head) (blocks * 512)
          (blocks * 512 + pages tail) (omega arith) a-IsReady)
        (record {
          size = omega (arith, thirds, lies);
          top = omega (arith, thirds, lies);
          start = omega (arith, thirds, lies);
          within = omega (arith, count, lies);
          aligned = omega (arith, thirds, lies);
        })
        thirds.virtual_aligned (rw a.builder_kept (omega (arith, thirds, phys)))
        (omega (arith, count, lt))

  b-IsReady :
      IsReady b.tables b.levels' b.prefixes' b.left (first + pages head + blocks * 512) (pages tail)
  b-IsReady =
      IsReady-rest a.tables a.levels' a.prefixes' a.left (first + pages head) (blocks * 512)
        (pages tail) body.paddr _ b (omega (arith, count, lies)) a-IsReady

  c :
      Filled b.tables b.levels' b.prefixes' b.left
        (first + pages head + blocks * 512)
        (pages tail)
        tail.paddr
        (if tail.size == 0
          then some (b.tables, b.left)
          else map_range_4k fuel (b.tables, b.left) tail flags type)
  c =
      fill_end b.tables b.levels' b.prefixes' b.left tail flags type base
        (first + pages head + blocks * 512) (pages tail) fuel b-IsReady
        (record {
          size = omega (arith, thirds, lies);
          top = omega (arith, thirds, lies);
          start = omega (arith, thirds, lies);
          within = omega (arith, count, lies);
          aligned = omega (arith, thirds, lies);
        })
        (rw (b.builder_kept, a.builder_kept) (omega (arith, thirds, phys)))
        (omega (arith, count, lt))

  pub large-Filled :
      Filled s levels prefixes buffer first n m.paddr (map_with_list fuel (s, buffer) m flags type)
  large-Filled =
      let later =
        Filled-trans a.tables a.levels' a.prefixes' a.left (first + pages head) (blocks * 512)
          (pages tail) body.paddr tail.paddr _ _ b c (omega (arith, thirds, lies))
          (omega (arith, count, lies)) in
      let joined =
        Filled-trans s levels prefixes buffer first (pages head) (blocks * 512 + pages tail)
          head.paddr body.paddr _ _ a later (omega (arith, thirds, lies))
          (omega (arith, count, lies)) in
      let run =
        map_with_list-large fuel (s, buffer) (a.tables, a.left) (b.tables, b.left)
          (c.tables, c.left) m flags type eligible a.returns b.returns c.returns in
      let start : head.paddr ≡ m.paddr = omega (arith, thirds) in
      subst
        (λ p.
          Filled s levels prefixes buffer first n p (map_with_list fuel (s, buffer) m flags type))
        start
        (subst
          (λ k.
            Filled s levels prefixes buffer first k head.paddr
              (map_with_list fuel (s, buffer) m flags type))
          (sym count)
          (subst
            (λ r.
              Filled s levels prefixes buffer first (pages head + (blocks * 512 + pages tail))
                head.paddr r)
            (sym (run ∙ sym c.returns)) joined))

-- With pages of either size, or of 4 KiB only.
pub map_with_list-Filled :
    (s : PageTables) (levels prefixes : ℕ → ℕ) (buffer : List PageTableAllocation)
    (m : AddressMapping) (flags : PageFlags) (type : MemoryType) (base first n fuel : ℕ)
    → IsReady s levels prefixes buffer first n
    → Lies m base first n
    → m.vaddr + m.size + large_page_size ≤ word
    → m.paddr + m.size ≤ max_physical_address s.builder
    → max_physical_address s.builder + large_page_size ≤ word
    → n < fuel
    → Filled s levels prefixes buffer first n m.paddr (map_with_list fuel (s, buffer) m flags type)
map_with_list-Filled s levels prefixes buffer m flags type base first n fuel ready lies top phys
      room lt =
    elim (Bool-cases (is_large_page_eligible m)) [
      | inl eligible ↦
          large-Filled s levels prefixes buffer m flags type base first n fuel ready lies top phys
            room lt eligible
      | inr plain ↦
          subst (λ r. Filled s levels prefixes buffer first n m.paddr r)
            (sym (map_with_list-small fuel (s, buffer) m flags type plain))
            (fill_4k s levels prefixes buffer m flags type base first n fuel ready lies phys lt)
    ]
