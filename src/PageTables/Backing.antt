-- ===== src/PageTables/Backing.antt =====
-- What the kernel's own reading of the tables says of a page.
use bez_os.PageTables.MapPage.{page_of, parts_of}
use bez_os.PageTables.Tree.{IsTree, resolve, high}
use bez_os.PageTables.{PageTables, as_virtual}
use bez_os.Range.{add_word}
use bez_os.PageTables.Walk.{
  PageSize, get_backing_address, walk_unlocked, page_size_of, find_page_table, pte_backing,
  PageWalk,
}
use bez_os.LookupTable.{invalid}
use bez_os.PageEntry.{Entry}
use bez_os.PageTables.Walk.{
  get_backing_address, walk_unlocked, page_size_of, find_page_table, pte_backing,
}
use bez_os.Prelude.{
  if◌then◌else◌, Bool-cases, ℕ, zero, suc, ◌*◌, ◌/◌, ◌%◌, ◌^◌, ◌≡◌, refl, sym, ap, ◌≢◌, ◌⊎◌, inl,
  inr, Option, none, some, arith,
}

-- The sum that the code forms for an entry of a level. For a page of 1 GiB its mask keeps ten bits of
-- the page's number.
abbrev pub backing : Option (ℕ × Entry) → ℕ → ℕ
backing none address = invalid
backing (some (zero, e)) address = add_word e.address (address % 4096)
backing (some (suc zero, e)) address =
    add_word (add_word e.address (address / 4096 % 512 * 4096)) (address % 4096)
backing (some (suc (suc k), e)) address =
    add_word (add_word e.address (address / 4096 % 1024 * 4096)) (address % 4096)

abbrev pub size_of : Option (ℕ × Entry) → PageSize
size_of none = PageSize.no_size
size_of (some (zero, e)) = PageSize.regular
size_of (some (suc zero, e)) = PageSize.large
size_of (some (suc (suc k), e)) = PageSize.huge

-- The pte of a walk that ends at one, if it maps a page, and that of the tree.
abbrev pub pte_of : PageWalk → Option Entry
pte_of w = if w.pte.present then some w.pte else none

abbrev pub last_of : Option (ℕ × Entry) → Option Entry
last_of none = none
last_of (some (zero, e)) = some e
last_of (some (suc k, e)) = none

-- The reading is by the entry that maps the page, with the sum formed as the code forms it.
pub get_backing_address-resolve :
    (s : PageTables) (levels prefixes : ℕ → ℕ) (address : ℕ)
    → IsTree s levels prefixes
    → (get_backing_address s address ≡ backing (resolve 3 s s.root (page_of address)) address)
      × (page_size_of (walk_unlocked s address) ≡ size_of (resolve 3 s s.root (page_of address)))
      × (pte_of (walk_unlocked s address) ≡ last_of (resolve 3 s s.root (page_of address)))
unfolding get_backing_address walk_unlocked page_size_of find_page_table pte_backing
get_backing_address-resolve s levels prefixes address tree =
    let p = parts_of address in
    let e4 = s.entries s.root (high 3 (page_of address) % 512) in
    let l3 = as_virtual s e4.address in
    let e3 = s.entries l3 (high 2 (page_of address) % 512) in
    let l2 = as_virtual s e3.address in
    let e2 = s.entries l2 (high 1 (page_of address) % 512) in
    let pt = as_virtual s e2.address in
    let e1 = s.entries pt (page_of address % 512) in
    let t4 = tree.top s.root (high 3 (page_of address) % 512) tree.root_level in
    rw (p.0, p.1, p.2, p.3)
      (elim (Bool-cases e4.present) [
        | inr n4 ↦ rw (t4, n4) (refl, refl, refl)
        | inl h4 ↦ elim (Bool-cases e3.present) [
          | inr n3 ↦ rw (t4, h4, n3) (refl, refl, refl)
          | inl h3 ↦ elim (Bool-cases e3.attribute) [
            | inl g3 ↦ rw (t4, h4, h3, g3) (refl, refl, refl)
            | inr s3 ↦ elim (Bool-cases e2.present) [
              | inr n2 ↦ rw (t4, h4, h3, s3, n2) (refl, refl, refl)
              | inl h2 ↦ elim (Bool-cases e2.attribute) [
                | inl g2 ↦
                    rw (t4, h4, h3, s3, h2, g2)
                      (
                        ap (λ i. add_word (add_word e2.address (i * 4096)) (address % 4096))
                            (sym p.3),
                        refl,
                        refl,
                      )
                | inr s2 ↦ elim (Bool-cases e1.present) [
                  | inr n1 ↦ rw (t4, h4, h3, s3, h2, s2, n1) (refl, refl, refl)
                  | inl h1 ↦ rw (t4, h4, h3, s3, h2, s2, h1) (refl, refl, refl)
                ]
              ]
            ]
          ]
        ]
      ])

-- The physical address behind an address in a page that an entry of a level maps: the page's address
-- and the offset in a page of 4 KiB, 2 MiB or 1 GiB.
abbrev mapped_to : Option (ℕ × Entry) → ℕ → ℕ
mapped_to none address = invalid
mapped_to (some (zero, e)) address = add_word e.address (address % 2 ^ 12)
mapped_to (some (suc zero, e)) address = add_word e.address (address % 2 ^ 21)
mapped_to (some (suc (suc k), e)) address = add_word e.address (address % 2 ^ 30)

backing-mapped_to :
    (r : Option (ℕ × Entry)) (address : ℕ)
    → ((size_of r ≢ PageSize.huge) × (backing r address ≡ mapped_to r address))
      ⊎ ((size_of r ≡ PageSize.huge) × (backing r address ≡ mapped_to r (address % 2 ^ 22)))
backing-mapped_to none address = inl (ground arith, refl)
backing-mapped_to (some (zero, e)) address = inl (ground arith, refl)
backing-mapped_to (some (suc zero, e)) address = inl (ground arith, omega arith)
backing-mapped_to (some (suc (suc k), e)) address = inr (refl, omega arith)

-- In a tree of tables, `getBackingAddress` and `getPageSize` of an address are what the entry that maps
-- its page says, or the invalid address and no size where no entry does: the address is the page's and
-- the offset in a page of 4 KiB or 2 MiB. In a page of 1 GiB only the lower 22 of the offset's 30 bits
-- are added. `walk` ends at a present pte exactly where that maps the page.
pub get_backing_address_lem :
    (s : PageTables) (levels prefixes : ℕ → ℕ) (address : ℕ)
    → IsTree s levels prefixes
    → let mapped = resolve 3 s s.root (page_of address) in
      (((size_of mapped ≢ PageSize.huge)
          × (get_backing_address s address ≡ mapped_to mapped address))
        ⊎ ((size_of mapped ≡ PageSize.huge)
            × (get_backing_address s address ≡ mapped_to mapped (address % 2 ^ 22))))
      × (page_size_of (walk_unlocked s address) ≡ size_of mapped)
      × (pte_of (walk_unlocked s address) ≡ last_of mapped)
get_backing_address_lem s levels prefixes address tree =
    let (sum, size, last) = get_backing_address-resolve s levels prefixes address tree in
    (rw sum (backing-mapped_to (resolve 3 s s.root (page_of address)) address), size, last)
