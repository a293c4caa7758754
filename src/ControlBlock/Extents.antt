-- ===== src/ControlBlock/Extents.antt =====
-- A list of blocks as the memory that it stands for.
use bez_os.ControlBlock.Chain.{has}
use bez_os.Prelude.{
  ltb, leb, ◌==◌, if◌then◌else◌, Bool-cases, ℕ, ◌+◌, ◌≤◌, ◌<◌, ◌≡◌, refl, inl, inr, Bool, true,
  false, ◌&&◌, ◌||◌, List, [], ◌∷◌, arith,
}
use bez_os.ControlBlock.{Memory}
use bez_os.Range.{word}

pub record Extent : Type 0 where
  pub start : ℕ
  pub size : ℕ
  pub slide : ℕ

abbrev pub extent : Memory → ℕ → Extent
extent m b = record { start = b; size = m.size b; slide = m.slide b }

abbrev pub extents : Memory → List ℕ → List Extent
extents m [] = []
extents m (x ∷ xs) = extent m x ∷ extents m xs

abbrev pub total : List Extent → ℕ
total [] = 0
total (e ∷ es) = e.size + total es

-- Whether an address lies in one of the extents.
abbrev pub covered : ℕ → List Extent → Bool
covered a [] = false
covered a (e ∷ es) = (leb e.start a && ltb a (e.start + e.size)) || covered a es

-- No extent is empty or reaches past the end of the address space.
abbrev pub AllFit : List Extent → Type 0
AllFit [] = Unit
AllFit (e ∷ es) = (0 < e.start) × (0 < e.size) × (e.start + e.size ≤ word) × AllFit es

-- Whether the second extent continues the first.
abbrev pub adjacent : Extent → Extent → Bool
adjacent e f = e.start + e.size == f.start && f.slide == e.slide

abbrev pub grow : Extent → Extent → Extent
grow e f = record e { size = e.size + f.size }

-- The extents from `e` on with every two that are adjacent made one.
abbrev pub merged : Extent → List Extent → List Extent
merged e [] = e ∷ []
merged e (f ∷ fs) = if adjacent e f then merged (grow e f) fs else e ∷ merged f fs

-- Of each two neighbours the second does not continue the first.
abbrev pub IsApart : List Extent → Type 0
IsApart [] = Unit
IsApart (e ∷ []) = Unit
IsApart (e ∷ f ∷ fs) = (adjacent e f ≡ false) × IsApart (f ∷ fs)

pub total-merged : (e : Extent) (fs : List Extent) → total (merged e fs) ≡ total (e ∷ fs)
total-merged e [] = refl
total-merged e (f ∷ fs) = ground (arith, total-merged (grow e f) fs, total-merged f fs)

pub covered-merged :
    (a : ℕ) (e : Extent) (fs : List Extent) → covered a (merged e fs) ≡ covered a (e ∷ fs)
covered-merged a e [] = refl
covered-merged a e (f ∷ fs) = ground (arith, covered-merged a (grow e f) fs, covered-merged a f fs)

-- The first of the merged extents starts where the list did.
pub merged-first :
    (e : Extent) (fs : List Extent)
    → (n : ℕ) × (rest : List Extent) × (merged e fs ≡ record e { size = n } ∷ rest)
merged-first e [] = (e.size, [], refl)
merged-first e (f ∷ fs) = elim (Bool-cases (adjacent e f)) [
  | inl joins ↦ rw joins (merged-first (grow e f) fs)
  | inr stops ↦ rw stops (e.size, merged f fs, refl)
]

pub merged-IsApart : (e : Extent) (fs : List Extent) → IsApart (merged e fs)
merged-IsApart e [] = tt
merged-IsApart e (f ∷ fs) = elim (Bool-cases (adjacent e f)) [
  | inl joins ↦ rw joins (merged-IsApart (grow e f) fs)
  | inr stops ↦
      let (n, rest, shape) = merged-first f fs in
      let apart = rw shape at (merged-IsApart f fs) in rw (stops, shape) (stops, apart)
]

pub extents-same :
    (m m' : Memory) (xs : List ℕ)
    → ((a : ℕ) → has a xs ≡ true → (m'.size a ≡ m.size a) × (m'.slide a ≡ m.slide a))
    → extents m' xs ≡ extents m xs
extents-same m m' [] h = refl
extents-same m m' (x ∷ xs) h =
    let here = h x (ground arith) in
    rw (here.0, here.1, extents-same m m' xs (λ a i. h a (ground arith)))

-- Growing an extent by one that continues it keeps to the address space.
pub AllFit-grow :
    (e f : Extent) (fs : List Extent)
    → adjacent e f ≡ true
    → AllFit (e ∷ f ∷ fs)
    → AllFit (grow e f ∷ fs)
AllFit-grow e f fs joins fit = (ground arith, ground arith, ground arith, fit.3.3)
