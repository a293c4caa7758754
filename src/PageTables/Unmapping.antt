-- ===== src/PageTables/Unmapping.antt =====
-- What `unmapUnlocked` does to pages of 4 KiB.
use bez_os.PageTables.Place.{last-IsTree}
use bez_os.TableList.{page_size}
use bez_os.PageTables.Chain.{is_small, resolve-Reached}
use bez_os.PageTables.Kept.{Reached}
use bez_os.Range.{add_word}
use bez_os.PageTables.MapPage.{page_of, parts_at}
use bez_os.PageTables.Tree.{resolve, IsTree, high, resolve-frame}
use bez_os.PageTables.{PageTables, as_virtual, set_entry}
use bez_os.PageEntry.{Entry}
use bez_os.PageTables.Unmap.{unmap_step, unmap_level3, unmap_level2, unmap_page}
use bez_os.PageTables.Walk.{find_page_map3, find_page_map2, find_page_table}
use bez_os.Prelude.{
  ◌==◌, Bool-cases, ℕ, suc, ◌+◌, ◌*◌, ◌%◌, ◌<◌, ◌≡◌, refl, sym, ap, ◌∙◌, ◌≢◌, ◌⊎◌, inl, inr, Bool,
  true, false, Option, none, some, arith,
}

abbrev is_there : Option (ℕ × Entry) → Bool
is_there none = false
is_there (some r) = true

-- The entry that a page mapped by a pte goes through.
passes :
    (k : ℕ) (s : PageTables) (t page : ℕ) (entry : Entry)
    → resolve (suc k) s t page ≡ some (0, entry)
    → ((s.entries t (high (suc k) page % 512)).present ≡ true)
      × ((s.entries t (high (suc k) page % 512)).attribute ≡ false)
      × (resolve k s (as_virtual s (s.entries t (high (suc k) page % 512)).address) page
          ≡ some (0, entry))
passes k s t page entry mapped =
    let e = s.entries t (high (suc k) page % 512) in
    elim (Bool-cases e.present) [
      | inr absent ↦
          let stop : resolve (suc k) s t page ≡ none = rw absent refl in
          absurd (ground (arith, ap is_there (sym stop ∙ mapped)))
      | inl there ↦ elim (Bool-cases e.attribute) [
        | inl marked ↦
            let stop : resolve (suc k) s t page ≡ some (suc k, e) = rw (there, marked) refl in
            absurd (ground (arith, ap is_small (sym stop ∙ mapped)))
        | inr small ↦
            let down : resolve (suc k) s t page ≡ resolve k s (as_virtual s e.address) page =
              rw (there, small) refl in
            (there, small, sym down ∙ mapped)
      ]
    ]

-- The tables after one page is unmapped.
pub record Unmapped (s : PageTables) (levels prefixes : ℕ → ℕ) (page next : ℕ)
    (result : PageTables × ℕ) : Type 0 where
  pub moves : result.1 ≡ next
  pub tree : IsTree result.0 levels prefixes
  pub nothing : resolve 3 result.0 result.0.root page ≡ none
  pub others :
      (other : ℕ)
      → other < 68719476736
      → other ≢ page
      → resolve 3 result.0 result.0.root other ≡ resolve 3 s s.root other

module _ (s : PageTables) (levels prefixes : ℕ → ℕ) (tree : IsTree s levels prefixes)
    (address page : ℕ) (entry : Entry) (is_page : page_of address ≡ page)
    (mapped : resolve 3 s s.root page ≡ some (0, entry)) where
  abbrev under : ℕ → ℕ → ℕ
  under t k = as_virtual s (s.entries t (high k page % 512)).address

  abbrev l3 : ℕ
  l3 = under s.root 3

  abbrev l2 : ℕ
  l2 = under l3 2

  abbrev pt : ℕ
  pt = under l2 1

  p3 :
      ((s.entries s.root (high 3 page % 512)).present ≡ true)
      × ((s.entries s.root (high 3 page % 512)).attribute ≡ false)
      × (resolve 2 s l3 page ≡ some (0, entry))
  p3 = passes 2 s s.root page entry mapped

  p2 :
      ((s.entries l3 (high 2 page % 512)).present ≡ true)
      × ((s.entries l3 (high 2 page % 512)).attribute ≡ false)
      × (resolve 1 s l2 page ≡ some (0, entry))
  p2 = passes 1 s l3 page entry p3.2

  p1 :
      ((s.entries l2 (high 1 page % 512)).present ≡ true)
      × ((s.entries l2 (high 1 page % 512)).attribute ≡ false)
      × (resolve 0 s pt page ≡ some (0, entry))
  p1 = passes 0 s l2 page entry p2.2

  c3 : (levels l3 ≡ 3) × (prefixes l3 ≡ prefixes s.root * 512 + high 3 page % 512)
  c3 = tree.leads s.root (high 3 page % 512) 2 tree.root_level (omega arith) p3.0 p3.1

  c2 : (levels l2 ≡ 2) × (prefixes l2 ≡ prefixes l3 * 512 + high 2 page % 512)
  c2 = tree.leads l3 (high 2 page % 512) 1 c3.0 (omega arith) p2.0 p2.1

  c1 : (levels pt ≡ 1) × (prefixes pt ≡ prefixes l2 * 512 + high 1 page % 512)
  c1 = tree.leads l2 (high 1 page % 512) 0 c2.0 (omega arith) p1.0 p1.1

  abbrev after : PageTables
  after = set_entry s pt (page % 512) (record (s.entries pt (page % 512)) { present = false })

  changed : (t i : ℕ) → (t ≢ pt) ⊎ (i ≢ page % 512) → after.entries t i ≡ s.entries t i
  changed t i other = elim (Bool-cases (t == pt)) [
    | inr off ↦ rw off refl
    | inl on ↦
        let same : t ≡ pt = ground arith in
        let miss : (i == page % 512) ≡ false = ground arith in rw (on, miss, same) refl
  ]

  ran : unmap_step s address ≡ (after, add_word address page_size)
  unfolding unmap_step unmap_level3 unmap_level2 unmap_page find_page_map3 find_page_map2
      find_page_table
  ran =
      let parts = parts_at address page is_page in
      rw (parts.0, p3.0, parts.1, p2.0, p2.1, parts.2, p1.0, p1.1, parts.3) refl

  below :
      (t0 k t1 : ℕ)
      → levels t0 ≡ suc (suc k)
      → Reached s levels prefixes t0 k page t1
      → Reached after levels prefixes t0 k page t1
  below t0 k t1 lev r =
      let same =
        changed t0 (high (suc k) page % 512) (inl λ e. omega (arith, lev, c1.0, ap levels e)) in
      record {
        level = r.level;
        prefix = r.prefix;
        there = rw same r.there;
        small = rw same r.small;
        points = rw same r.points;
      }

  pub unmap_step-Unmapped :
      Unmapped s levels prefixes page (add_word address page_size) (unmap_step s address)
  unmap_step-Unmapped =
      let self : (pt == pt) ≡ true = ground arith in
      let at : (page % 512 == page % 512) ≡ true = ground arith in
      let r3 = below s.root 2 l3 tree.root_level (record {
        level = c3.0;
        prefix = omega (arith, c3.1, tree.root_prefix, is_page);
        there = p3.0;
        small = p3.1;
        points = refl;
      }) in
      let r2 = below l3 1 l2 c3.0 (record {
        level = c2.0;
        prefix = omega (arith, c2.1, r3.prefix);
        there = p2.0;
        small = p2.1;
        points = refl;
      }) in
      let r1 = below l2 0 pt c2.0 (record {
        level = c1.0;
        prefix = omega (arith, c1.1, r2.prefix);
        there = p1.0;
        small = p1.1;
        points = refl;
      }) in
      let last : resolve 0 after pt page ≡ none = rw (self, at) refl in
      rw ran record {
        moves = refl;
        tree =
            last-IsTree s after levels prefixes tree pt c1.0 refl (λ a. refl)
              (λ t i ne. changed t i (inl ne));
        nothing =
            resolve-Reached after levels prefixes s.root 2 page l3 r3
            ∙ resolve-Reached after levels prefixes l3 1 page l2 r2
            ∙ resolve-Reached after levels prefixes l2 0 page pt r1
            ∙ last;
        others = λ other lt ne.
            resolve-frame s after levels prefixes tree (λ a. refl) pt (page % 512) 0 c1.0
              (λ t i lev. changed t i) 3 s.root other tree.root_level
              (omega (arith, tree.root_prefix, lt)) (λ e. ne (omega (arith, e, r1.prefix)));
      }
