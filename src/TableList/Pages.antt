-- ===== src/TableList/Pages.antt =====
-- The pages that a list links.
use bez_os.Prelude.{
  ◌==◌, Bool-cases, length, ℕ, zero, suc, ◌^◌, ◌<◌, ◌≡◌, refl, ◌≢◌, inl, inr, Bool, true, false,
  ◌||◌, some, List, [], ◌∷◌, arith,
}
use bez_os.ControlBlock.{Memory}
use bez_os.TableList.{PageTableAllocation, get_next, push, count}

-- Whether a block is that of one of the pages.
abbrev pub holds : ℕ → List PageTableAllocation → Bool
holds b [] = false
holds b (p ∷ ps) = (b == p.block) || holds b ps

-- The list links just these pages, of different blocks.
abbrev pub Links : Memory → PageTableAllocation → List PageTableAllocation → Type 0
Links m list [] = list.block ≡ 0
Links m list (p ∷ ps) =
    (list ≡ p) × (p.block ≢ 0) × (holds p.block ps ≡ false) × Links m (get_next m p) ps

-- A memory that agrees on the pages has the same list.
pub Links-frame :
    (m m' : Memory) (list : PageTableAllocation) (ps : List PageTableAllocation)
    → Links m list ps
    → ((b : ℕ) → holds b ps ≡ true → (m'.next b ≡ m.next b) × (m'.prev b ≡ m.prev b))
    → Links m' list ps
Links-frame m m' list [] l same = l
Links-frame m m' list (p ∷ ps) l same =
    let here = same p.block (ground arith) in
    (
      l.0,
      l.1,
      l.2,
      rw (here.0, here.1) (Links-frame m m' (get_next m p) ps l.3 (λ b i. same b (ground arith))),
    )

pub holds-not_null :
    (m : Memory) (list : PageTableAllocation) (ps : List PageTableAllocation) (b : ℕ)
    → Links m list ps
    → holds b ps ≡ true
    → b ≢ 0
holds-not_null m list [] b l i = absurd (ground arith)
holds-not_null m list (p ∷ ps) b l i = elim (Bool-cases (b == p.block)) [
  | inl here ↦ ground (arith, l.1)
  | inr later ↦ holds-not_null m (get_next m p) ps b l.3 (ground arith)
]

pub push_lem :
    (m : Memory) (list page : PageTableAllocation) (ps : List PageTableAllocation)
    → Links m list ps
    → page.block ≢ 0
    → holds page.block ps ≡ false
    → Links (push m list page).0 (push m list page).1 (page ∷ ps)
push_lem m list page ps l ne out =
    let m' = (push m list page).0 in
    let back : get_next m' page ≡ list =
      (let here : m'.next page.block ≡ list.block = ground arith in
        let slide : m'.prev page.block ≡ list.slide = ground arith in rw (here, slide) refl) in
    (
      refl,
      ne,
      out,
      rw back (Links-frame m m' list ps l λ b i. (ground (arith, out), ground (arith, out))),
    )

-- `count` counts the pages, given more fuel than there are pages, if these are fewer than 2 ^ 64.
pub count_lem :
    (fuel : ℕ) (m : Memory) (list : PageTableAllocation) (ps : List PageTableAllocation)
    → Links m list ps
    → length ps < fuel
    → length ps < 2 ^ 64
    → count fuel m list ≡ some (length ps)
unfolding count
count_lem zero m list ps l lt short = absurd (omega arith)
count_lem (suc fuel) m list [] l lt short = rw l refl
count_lem (suc fuel) m list (p ∷ ps) l lt short =
    let there : (p.block == 0) ≡ false = ground (arith, l.1) in
    rw (l.0, there, count_lem fuel m (get_next m p) ps l.3 (omega arith) (omega arith))
      (ground arith)
