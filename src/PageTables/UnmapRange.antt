-- ===== src/PageTables/UnmapRange.antt =====
-- What `unmapUnlocked` does to a range of pages of 4 KiB.
use bez_os.PageTables.Backing.{get_backing_address-resolve, backing}
use bez_os.LookupTable.{invalid}
use bez_os.PageTables.Walk.{get_backing_address}
use bez_os.PageTables.Unmapping.{unmap_step-Unmapped}
use bez_os.PageTables.MapPage.{page_of}
use bez_os.TableList.{page_size}
use bez_os.PageTables.Tree.{IsTree, resolve}
use bez_os.PageTables.Unmap.{unmap_unlocked, unmap_step}
use bez_os.PageTables.{PageTables}
use bez_os.Range.{word}
use bez_os.PageEntry.{Entry}
use bez_os.Prelude.{
  ltb, leb, ◌==◌, if◌then◌else◌, Bool-cases, ℕ, zero, suc, ◌+◌, ◌*◌, ◌/◌, ◌%◌, ◌≤◌, ◌<◌, ◌≡◌, refl,
  sym, ap, ◌∙◌, ◌⊎◌, inl, inr, Bool, true, false, ◌&&◌, Option, none, some, arith,
}

-- A pte maps the page.
abbrev pub is_regular : Option (ℕ × Entry) → Bool
is_regular none = false
is_regular (some r) = r.0 == 0

regular-entry : (o : Option (ℕ × Entry)) → is_regular o ≡ true → (e : Entry) × (o ≡ some (0, e))
regular-entry none h = absurd (ground (arith, h))
regular-entry (some (zero, e)) h = (e, refl)
regular-entry (some (suc k, e)) h = absurd (ground (arith, h))

-- The tables after `n` pages from `first` on are unmapped.
record Cleared (s : PageTables) (levels prefixes : ℕ → ℕ) (first n : ℕ) (result : Option PageTables)
    : Type 0 where
  tables : PageTables
  returns : result ≡ some tables
  tree : IsTree tables levels prefixes
  inside : (q : ℕ) → first ≤ q → q < first + n → resolve 3 tables tables.root q ≡ none
  outside :
      (other : ℕ)
      → other < 68719476736
      → (other < first) ⊎ (first + n ≤ other)
      → resolve 3 tables tables.root other ≡ resolve 3 s s.root other

unmap_unlocked-end :
    (fuel : ℕ) (s : PageTables) (back address : ℕ)
    → ltb address back ≡ false
    → unmap_unlocked (suc fuel) s back address ≡ some s
unfolding unmap_unlocked
unmap_unlocked-end fuel s back address over = rw over refl

unmap_unlocked-suc :
    (fuel : ℕ) (s : PageTables) (back address next : ℕ)
    → ltb address back ≡ true
    → (unmap_step s address).1 ≡ next
    → unmap_unlocked (suc fuel) s back address
      ≡ unmap_unlocked fuel (unmap_step s address).0 back next
unfolding unmap_unlocked
unmap_unlocked-suc fuel s back address next inside moves = rw (inside, moves) refl

unmap_unlocked-Cleared :
    (n fuel : ℕ) (s : PageTables) (levels prefixes : ℕ → ℕ) (back address base first : ℕ)
    → IsTree s levels prefixes
    → n < fuel
    → back ≡ address + n * page_size
    → back < word
    → address ≡ base * 281474976710656 + first * page_size
    → first + n ≤ 68719476736
    → ((q : ℕ) → first ≤ q → q < first + n → is_regular (resolve 3 s s.root q) ≡ true)
    → Cleared s levels prefixes first n (unmap_unlocked fuel s back address)
unmap_unlocked-Cleared n zero s levels prefixes back address base first tree lt size top start fits
      regular =
    absurd (omega (arith, lt))
unmap_unlocked-Cleared zero (suc fuel) s levels prefixes back address base first tree lt size top
      start fits regular =
    let over : ltb address back ≡ false = ground (arith, size) in
    record {
      tables = s;
      returns = unmap_unlocked-end fuel s back address over;
      tree = tree;
      inside = λ q lo hi. absurd (omega (arith, lo, hi));
      outside = λ other lt out. refl;
    }
unmap_unlocked-Cleared (suc n) (suc fuel) s levels prefixes back address base first tree lt size top
      start fits regular =
    let under : ltb address back ≡ true = ground (arith, size) in
    let page : page_of address ≡ first = omega (arith, start, fits) in
    let (e, mapped) =
      regular-entry (resolve 3 s s.root first) (regular first (omega arith) (omega arith)) in
    let one = unmap_step-Unmapped s levels prefixes tree address first e page mapped in
    let next : (unmap_step s address).1 ≡ address + page_size =
      one.moves ∙ omega (arith, size, top) in
    let rest =
      unmap_unlocked-Cleared n fuel (unmap_step s address).0 levels prefixes back
        (address + page_size) base (first + 1) one.tree (omega (arith, lt)) (omega (arith, size))
        top (omega (arith, start)) (omega (arith, fits))
        (λ q lo hi.
          rw (one.others q (omega (arith, hi, fits)) (λ e. omega (arith, e, lo)))
            (regular q (omega (arith, lo)) (omega (arith, hi)))) in
    record {
      tables = rest.tables;
      returns =
          unmap_unlocked-suc fuel s back address (address + page_size) under next ∙ rest.returns;
      tree = rest.tree;
      inside = λ q lo hi. elim (Bool-cases (q == first)) [
        | inl here ↦
            let same : q ≡ first = ground arith in
            rw same (rest.outside first (omega (arith, fits)) (inl (omega arith)) ∙ one.nothing)
        | inr later ↦ rest.inside q (ground (arith, lo)) (omega (arith, hi))
      ];
      outside = λ other below out.
          rest.outside other below (ground (arith, out))
          ∙ one.others other below (ground (arith, out));
    }

-- In a tree of tables, if each of `n` pages from an aligned address on, up to an end below 2^64 and
-- without crossing a multiple of 2^48, is mapped by a pte, `unmapUnlocked`, on a fuel of more than the
-- pages, returns and keeps the tables a tree. Addresses of the pages are no longer mapped, and every
-- other address is mapped to what it was mapped to before.
pub unmap_unlocked_lem :
    (s : PageTables) (levels prefixes : ℕ → ℕ) (address n fuel other : ℕ)
    → IsTree s levels prefixes
    → address % page_size ≡ 0
    → address % 281474976710656 + n * page_size ≤ 281474976710656
    → address + n * page_size < word
    → ((q : ℕ)
        → page_of address ≤ q
        → q < page_of address + n
        → is_regular (resolve 3 s s.root q) ≡ true)
    → n < fuel
    → (s' : PageTables) × (unmap_unlocked fuel s (address + n * page_size) address ≡ some s')
      × IsTree s' levels prefixes
      × (get_backing_address s' other ≡ (
          if leb (page_of address) (page_of other) && ltb (page_of other) (page_of address + n)
          then invalid
          else get_backing_address s other))
unmap_unlocked_lem s levels prefixes address n fuel other tree aligned within top regular lt =
    let first = page_of address in
    let all =
      unmap_unlocked-Cleared n fuel s levels prefixes (address + n * page_size) address
        (address / 281474976710656) first tree lt refl top (omega (arith, aligned))
        (omega (arith, within, aligned)) regular in
    let there = get_backing_address-resolve all.tables levels prefixes other all.tree in
    let before = get_backing_address-resolve s levels prefixes other tree in
    (
      all.tables,
      all.returns,
      all.tree,
      elim (Bool-cases (leb first (page_of other) && ltb (page_of other) (first + n))) [
        | inl inside ↦ rw inside (
            there.0
            ∙ ap (λ r. backing r other) (all.inside (page_of other) (ground arith) (ground arith)))
        | inr outside ↦ rw outside (
            there.0
            ∙ ap (λ r. backing r other) (all.outside (page_of other) (omega arith) (ground arith))
            ∙ sym before.0)
      ],
    )
