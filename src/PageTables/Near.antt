-- ===== src/PageTables/Near.antt =====
-- How many tables the next page needs.
use bez_os.PageTables.{PageTables, as_virtual}
use bez_os.PageTables.Tree.{high, missing}
use bez_os.Prelude.{
  ◌==◌, if◌then◌else◌, Bool-cases, ℕ, zero, suc, ◌+◌, ◌-◌, ◌%◌, ◌≤◌, ◌<◌, ◌≡◌, refl, sym, ◌∙◌, inl,
  inr, true, false, arith,
}

-- How many levels above the last one have different indices below the first difference.
abbrev near : ℕ → ℕ → ℕ → ℕ
near zero p q = 0
near (suc k) p q =
    let rest = near k p q in if high (suc k) p % 512 == high (suc k) q % 512 then rest else suc k

-- How many boundaries of tables lie between two pages.
abbrev pub crossings : ℕ → ℕ → ℕ
crossings p q = (high 1 q - high 1 p) + (high 2 q - high 2 p) + (high 3 q - high 3 p)

pub missing-bound : (k : ℕ) (s : PageTables) (t page : ℕ) → missing k s t page ≤ k
missing-bound zero s t page = omega arith
missing-bound (suc k) s t page =
    let e = s.entries t (high (suc k) page % 512) in
    elim (Bool-cases e.present) [
      | inl there ↦ rw there (omega (arith, missing-bound k s (as_virtual s e.address) page))
      | inr absent ↦ rw absent (omega arith)
    ]

missing-step :
    (k : ℕ) (s : PageTables) (t p : ℕ)
    → (s.entries t (high (suc k) p % 512)).present ≡ true
    → missing (suc k) s t p
      ≡ missing k s (as_virtual s (s.entries t (high (suc k) p % 512)).address) p
missing-step k s t p there = rw there refl

missing-gap :
    (k : ℕ) (s : PageTables) (t p : ℕ)
    → (s.entries t (high (suc k) p % 512)).present ≡ false
    → missing (suc k) s t p ≡ suc k
missing-gap k s t p absent = rw absent refl

missing-near :
    (k : ℕ) (s : PageTables) (t p q : ℕ) → missing k s t p ≡ 0 → missing k s t q ≤ near k p q
missing-near zero s t p q none_missing = omega arith
missing-near (suc k) s t p q none_missing =
    elim (Bool-cases (high (suc k) p % 512 == high (suc k) q % 512)) [
      | inr apart ↦ rw apart (missing-bound (suc k) s t q)
      | inl same ↦
          let i = high (suc k) p % 512 in
          let e = s.entries t i in
          let index : high (suc k) q % 512 ≡ i = ground arith in
          elim (Bool-cases e.present) [
            | inr absent ↦ absurd (ground (arith, none_missing, missing-gap k s t p absent))
            | inl there ↦
                rw (same, index, there)
                  (missing-near k s (as_virtual s e.address) p q
                    (sym (missing-step k s t p there) ∙ none_missing))
          ]
    ]

-- The page after one that lacks no table needs as many tables as there are boundaries between them.
pub missing-next :
    (s : PageTables) (t p : ℕ)
    → p + 1 < 68719476736
    → missing 3 s t p ≡ 0
    → missing 3 s t (p + 1) ≤ crossings p (p + 1)
missing-next s t p lt e =
    let steps : near 3 p (p + 1) ≤ crossings p (p + 1) = ground arith in
    omega (arith, steps, missing-near 3 s t p (p + 1) e)

-- The same for the page after a large one.
pub missing-block :
    (s : PageTables) (t p : ℕ)
    → p + 512 < 68719476736
    → missing 3 s t p ≡ 0
    → missing 3 s t (p + 512) ≤ crossings p (p + 512)
missing-block s t p lt e =
    let steps : near 3 p (p + 512) ≤ crossings p (p + 512) = ground arith in
    omega (arith, steps, missing-near 3 s t p (p + 512) e)
