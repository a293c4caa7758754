-- ===== src/TableList/Runs.antt =====
-- Lists of the pages of one allocation: the constructor and `push` of several pages.
use bez_os.TableList.Pages.{Links, holds, push_lem}
use bez_os.Prelude.{
  ltb, leb, ◌==◌, Bool-cases, length, ℕ, zero, suc, ◌+◌, ◌*◌, ◌^◌, ◌≤◌, ◌<◌, ◌≡◌, refl, ◌∙◌, ◌≢◌,
  ◌⊎◌, inl, inr, Bool, true, false, ◌&&◌, List, ◌∷◌, arith,
}
use bez_os.ControlBlock.{Memory}
use bez_os.TableList.{PageTableAllocation, offset, push, push_pages, page_size}

-- The `n` pages from the page `i` on, in front of others, the last foremost.
abbrev pub push_onto :
    ℕ → PageTableAllocation → ℕ → List PageTableAllocation → List PageTableAllocation
push_onto zero a i ps = ps
push_onto (suc n) a i ps = push_onto n a (suc i) (offset a i ∷ ps)

pub length-push_onto :
    (n : ℕ) (a : PageTableAllocation) (i : ℕ) (ps : List PageTableAllocation)
    → length (push_onto n a i ps) ≡ n + length ps
length-push_onto zero a i ps = omega arith
length-push_onto (suc n) a i ps = omega (arith, length-push_onto n a (suc i) (offset a i ∷ ps))

-- Whether an address lies in the pages from `i` on of an allocation.
abbrev pub in_run : ℕ → PageTableAllocation → ℕ → ℕ → Bool
in_run b a i n = leb (a.block + i * page_size) b && ltb b (a.block + (i + n) * page_size)

pub offset_lem :
    (a : PageTableAllocation) (i : ℕ)
    → a.block + i * page_size < 2 ^ 64
    → (offset a i).block ≡ a.block + i * page_size
unfolding offset
offset_lem a i lt = ground arith

-- What `push` of a run comes to.
pub record Pushed (n : ℕ) (m : Memory) (list a : PageTableAllocation) (i : ℕ)
    (ps : List PageTableAllocation) : Type 0 where
  pub links : Links (push_pages n m list a i).0 (push_pages n m list a i).1 (push_onto n a i ps)
  pub same :
      (b : ℕ)
      → (in_run b a i n ≡ true)
        ⊎ (((push_pages n m list a i).0.next b ≡ m.next b)
            × ((push_pages n m list a i).0.prev b ≡ m.prev b))
  pub sizes :
      ((push_pages n m list a i).0.size ≡ m.size) × ((push_pages n m list a i).0.slide ≡ m.slide)
  pub within :
      (b : ℕ)
      → (holds b (push_onto n a i ps) ≡ false) ⊎ ((holds b ps ≡ true) ⊎ (in_run b a i n ≡ true))

pub push_pages_lem :
    (n : ℕ) (m : Memory) (list a : PageTableAllocation) (i : ℕ) (ps : List PageTableAllocation)
    → 0 < a.block
    → a.block + (i + n) * page_size ≤ 2 ^ 64
    → Links m list ps
    → ((b : ℕ) → (in_run b a i n && holds b ps) ≡ false)
    → Pushed n m list a i ps
unfolding push_pages
push_pages_lem zero m list a i ps pos fits l apart = record {
  links = l;
  same = λ b. inr (refl, refl);
  sizes = (refl, refl);
  within = λ b. ground arith;
}
push_pages_lem (suc n) m list a i ps pos fits l apart =
    let page = offset a i in
    let at_i : page.block ≡ a.block + i * page_size = offset_lem a i (omega arith) in
    let out : holds page.block ps ≡ false = ground (arith, apart page.block, at_i) in
    let ne : page.block ≢ 0 = ground (arith, at_i) in
    let m' = (push m list page).0 in
    let r =
      push_pages_lem n m' page a (suc i) (page ∷ ps) pos (omega arith)
        (push_lem m list page ps l ne out) (λ b. ground (arith, apart b, at_i)) in
    record {
      links = r.links;
      same = λ b. elim (r.same b) [
        | inl later ↦ inl (ground arith)
        | inr same ↦ elim (Bool-cases (b == page.block)) [
          | inl here ↦ inl (ground (arith, at_i))
          | inr other ↦
              let next : m'.next b ≡ m.next b = ground arith in
              let prev : m'.prev b ≡ m.prev b = ground arith in inr (same.0 ∙ next, same.1 ∙ prev)
        ]
      ];
      sizes = r.sizes;
      within = λ b. ground (arith, r.within b, at_i);
    }

-- `push` of a run writes to none of the other fields.
pub push_pages-size :
    (n : ℕ) (m : Memory) (list a : PageTableAllocation) (i : ℕ)
    → (push_pages n m list a i).0.size ≡ m.size
unfolding push_pages
push_pages-size zero m list a i = refl
push_pages-size (suc n) m list a i =
    push_pages-size n (push m list (offset a i)).0 (offset a i) a (suc i)

pub push_pages-slide :
    (n : ℕ) (m : Memory) (list a : PageTableAllocation) (i : ℕ)
    → (push_pages n m list a i).0.slide ≡ m.slide
unfolding push_pages
push_pages-slide zero m list a i = refl
push_pages-slide (suc n) m list a i =
    push_pages-slide n (push m list (offset a i)).0 (offset a i) a (suc i)
