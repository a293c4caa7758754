-- ===== src/TableList/Append.antt =====
-- `PageTableList::append`.
use bez_os.TableList.Pages.{Links, holds, Links-frame, push_lem}
use bez_os.Prelude.{
  ◌==◌, Bool-cases, length, ℕ, zero, suc, ◌<◌, ◌≡◌, refl, ◌∙◌, ◌≢◌, ◌⊎◌, inl, inr, true, false,
  ◌&&◌, some, List, [], ◌∷◌, arith,
}
use bez_os.ControlBlock.{Memory}
use bez_os.TableList.{PageTableAllocation, append, push, get_next}

-- The first pages in front of the second, in turn.
abbrev pub onto : List PageTableAllocation → List PageTableAllocation → List PageTableAllocation
onto [] ps = ps
onto (q ∷ qs) ps = onto qs (q ∷ ps)

-- What `append` comes to.
pub record Appended (fuel : ℕ) (m : Memory) (list extra : PageTableAllocation)
    (qs ps : List PageTableAllocation) : Type 0 where
  pub after : Memory
  pub pages : PageTableAllocation
  pub comes_to : append fuel m list extra ≡ some (after, pages)
  pub links : Links after pages (onto qs ps)
  pub same : (b : ℕ) → (holds b qs ≡ true) ⊎ ((after.next b ≡ m.next b) × (after.prev b ≡ m.prev b))
  pub sizes : (after.size ≡ m.size) × (after.slide ≡ m.slide)

-- `append` of two lists without a page in common comes to its end, given more fuel than the second has
-- pages: its pages are then in front of those of the first, the last of them foremost.
pub append_lem :
    (fuel : ℕ) (m : Memory) (list extra : PageTableAllocation) (qs ps : List PageTableAllocation)
    → Links m extra qs
    → Links m list ps
    → ((b : ℕ) → (holds b qs && holds b ps) ≡ false)
    → length qs < fuel
    → Appended fuel m list extra qs ps
unfolding append
append_lem zero m list extra qs ps e l apart lt = absurd (omega arith)
append_lem (suc fuel) m list extra [] ps e l apart lt = record {
  after = m;
  pages = list;
  comes_to = rw e refl;
  links = l;
  same = λ b. inr (refl, refl);
  sizes = (refl, refl);
}
append_lem (suc fuel) m list extra (q ∷ qs) ps e l apart lt =
    let m' = (push m list q).0 in
    let out : holds q.block ps ≡ false = ground (arith, apart q.block) in
    let there : (q.block == 0) ≡ false = ground (arith, e.1) in
    let kept : (b : ℕ) → b ≢ q.block → (m'.next b ≡ m.next b) × (m'.prev b ≡ m.prev b) =
      λ b ne. (ground arith, ground arith) in
    let r =
      append_lem fuel m' q (get_next m q) qs (q ∷ ps)
        (Links-frame m m' (get_next m q) qs e.3 (λ b i. kept b (ground (arith, e.2))))
        (push_lem m list q ps l e.1 out) (λ b. ground (arith, apart b, e.2)) (omega arith) in
    record {
      after = r.after;
      pages = r.pages;
      comes_to = rw (e.0, there, there) r.comes_to;
      links = r.links;
      same = λ b. elim (r.same b) [
        | inl i ↦ inl (ground arith)
        | inr same ↦ elim (Bool-cases (b == q.block)) [
          | inl here ↦ inl (ground arith)
          | inr other ↦ let k = kept b (ground arith) in inr (same.0 ∙ k.0, same.1 ∙ k.1)
        ]
      ];
      sizes = r.sizes;
    }
