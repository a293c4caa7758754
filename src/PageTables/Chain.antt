-- ===== src/PageTables/Chain.antt =====
-- The steps of a walk put together.
use bez_os.PageTables.Kept.{Reached, Kept}
use bez_os.PageTables.Place.{Places}
use bez_os.TableList.{PageTableAllocation}
use bez_os.PageTables.Step.{Stepped}
use bez_os.PageTables.Tree.{IsTree, resolve, high, missing}
use bez_os.PageTables.{PageTables}
use bez_os.PageEntry.{Entry, PageFlags, MemoryType}
use bez_os.Prelude.{
  ◌==◌, Bool-cases, ℕ, suc, ◌%◌, ◌≡◌, refl, sym, ap, ◌∙◌, ◌≢◌, inl, inr, Bool, true, false, Option,
  none, some, List, arith,
}

-- No large page maps the page.
abbrev pub is_small : Option (ℕ × Entry) → Bool
is_small none = true
is_small (some r) = r.0 == 0

pub small_entry :
    (s : PageTables) (levels prefixes : ℕ → ℕ) (t k page : ℕ)
    → IsTree s levels prefixes
    → levels t ≡ suc (suc k)
    → is_small (resolve (suc k) s t page) ≡ true
    → (s.entries t (high (suc k) page % 512)).attribute ≡ false
small_entry s levels prefixes t k page tree lev small =
    let e = s.entries t (high (suc k) page % 512) in
    elim (Bool-cases e.attribute) [
      | inr unmarked ↦ unmarked
      | inl marked ↦ elim (Bool-cases e.present) [
        | inr absent ↦ tree.blank t (high (suc k) page % 512) k lev absent
        | inl there ↦
            let large : is_small (resolve (suc k) s t page) ≡ false =
              rw (there, marked) (ground arith) in
            absurd (ground (arith, small, large))
      ]
    ]

pub resolve-Reached :
    (s : PageTables) (levels prefixes : ℕ → ℕ) (t0 k page t1 : ℕ)
    → Reached s levels prefixes t0 k page t1
    → resolve (suc k) s t0 page ≡ resolve k s t1 page
resolve-Reached s levels prefixes t0 k page t1 r = rw (r.there, r.small, r.points) refl

pub missing-Reached :
    (s : PageTables) (levels prefixes : ℕ → ℕ) (t0 k page t1 : ℕ)
    → Reached s levels prefixes t0 k page t1
    → missing (suc k) s t0 page ≡ missing k s t1 page
missing-Reached s levels prefixes t0 k page t1 r = rw (r.there, r.points) refl

pub Kept-trans :
    (s s' s'' : PageTables) (l l' l'' p p' p'' : ℕ → ℕ)
    → Kept s s' l l' p p'
    → Kept s' s'' l' l'' p' p''
    → Kept s s'' l l'' p p''
Kept-trans s s' s'' l l' l'' p p' p'' a b = record {
  builder_kept = b.builder_kept ∙ a.builder_kept;
  root_kept = b.root_kept ∙ a.root_kept;
  find_kept = λ x. b.find_kept x ∙ a.find_kept x;
  levels_kept =
      λ t ne. b.levels_kept t (λ e. ne (sym (a.levels_kept t ne) ∙ e)) ∙ a.levels_kept t ne;
  prefixes_kept =
      λ t ne. b.prefixes_kept t (λ e. ne (sym (a.levels_kept t ne) ∙ e)) ∙ a.prefixes_kept t ne;
  entries_kept = λ t i ne there.
      let same = a.entries_kept t i ne there in
      b.entries_kept t i (λ e. ne (sym (a.levels_kept t ne) ∙ e))
        (ap (λ (e : Entry). e.present) same ∙ there)
      ∙ same;
  resolve_kept = λ k t page lev.
      b.resolve_kept k t page ((a.levels_kept t (λ e. omega (arith, e, lev))) ∙ lev)
      ∙ a.resolve_kept k t page lev;
}

-- A later step keeps what an earlier one reached.
pub Reached-kept :
    (s s' : PageTables) (l l' p p' : ℕ → ℕ) (t0 k page t1 : ℕ)
    → Kept s s' l l' p p'
    → l t0 ≡ suc (suc k)
    → Reached s l p t0 k page t1
    → Reached s' l' p' t0 k page t1
Reached-kept s s' l l' p p' t0 k page t1 kept lev r =
    let i = high (suc k) page % 512 in
    let same = kept.entries_kept t0 i (λ e. omega (arith, e, lev)) r.there in
    let below : l t1 ≢ 0 = λ e. omega (arith, e, r.level) in
    record {
      level = kept.levels_kept t1 below ∙ r.level;
      prefix = kept.prefixes_kept t1 below ∙ r.prefix;
      there = rw same r.there;
      small = rw same r.small;
      points = rw (same, kept.find_kept (s.entries t0 i).address) r.points;
    }

-- The same of the write of the last entry.
pub Reached-placed :
    (s : PageTables) (l p : ℕ → ℕ) (t0 k page t1 pt paddr : ℕ) (flags : PageFlags)
    (type : MemoryType) (result : Option PageTables)
    → (w : Places s l p pt page paddr flags type result) → l pt ≡ 1
    → l t0 ≡ suc (suc k)
    → Reached s l p t0 k page t1
    → Reached w.tables l p t0 k page t1
Reached-placed s l p t0 k page t1 pt paddr flags type result w last lev r =
    let i = high (suc k) page % 512 in
    let same =
      w.others t0 i (λ e. omega (arith, e, lev)) (inl λ e. omega (arith, lev, last, ap l e)) in
    record {
      level = r.level;
      prefix = r.prefix;
      there = rw same r.there;
      small = rw same r.small;
      points = rw (same, w.find_kept (s.entries t0 i).address) r.points;
    }

-- After a step, the table it reached maps the page as the table before it did.
pub small-Stepped :
    (s : PageTables) (levels prefixes : ℕ → ℕ) (buffer : List PageTableAllocation) (t0 k page : ℕ)
    (result : Option (ℕ × PageTables × List PageTableAllocation))
    → (step : Stepped s levels prefixes buffer t0 k page result) → levels t0 ≡ suc (suc k)
    → is_small (resolve (suc k) s t0 page) ≡ true
    → is_small (resolve k step.tables step.table page) ≡ true
small-Stepped s levels prefixes buffer t0 k page result step lev small =
    ap is_small (
      sym
        (resolve-Reached step.tables step.levels' step.prefixes' t0 k page step.table step.reached)
      ∙ step.kept.resolve_kept (suc k) t0 page lev)
    ∙ small
