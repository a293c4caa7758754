-- ===== src/ControlBlock/Spaced.antt =====
-- What an order of the blocks keeps of the memory they stand for, and lists in which each extent ends
-- before the next begins.
use bez_os.Prelude.{
  ltb, leb, ◌==◌, Bool-cases, ℕ, ◌+◌, ◌≤◌, ◌<◌, ◌≡◌, refl, sym, ap, ◌∙◌, ◌≢◌, inl, inr, Bool, true,
  false, ◌&&◌, List, [], ◌∷◌, arith,
}
use bez_os.ControlBlock.{Memory}
use bez_os.ControlBlock.Chain.{has}
use bez_os.ControlBlock.Extents.{
  Extent, covered, merged, total, extent, AllFit, grow, extents, adjacent, merged-first,
}
use bez_os.ControlBlock.Rising.{sum_of, IsRising}

-- Whether an address lies in an extent.
abbrev pub inside : ℕ → Extent → Bool
inside a e = leb e.start a && ltb a (e.start + e.size)

abbrev pub IsDisjoint : List Extent → Type 0
IsDisjoint [] = Unit
IsDisjoint (e ∷ es) = ((a : ℕ) → (inside a e && covered a es) ≡ false) × IsDisjoint es

-- Each extent ends before the next begins.
abbrev pub IsSpaced : List Extent → Type 0
IsSpaced [] = Unit
IsSpaced (e ∷ []) = Unit
IsSpaced (e ∷ f ∷ fs) = (e.start + e.size ≤ f.start) × IsSpaced (f ∷ fs)

pub merged-IsSpaced : (e : Extent) (fs : List Extent) → IsSpaced (e ∷ fs) → IsSpaced (merged e fs)
merged-IsSpaced e [] s = tt
merged-IsSpaced e (f ∷ fs) s = elim (Bool-cases (adjacent e f)) [
  | inl joins ↦ rw joins (merged-IsSpaced (grow e f) fs (joined joins fs s))
  | inr stops ↦
      let (n, rest, shape) = merged-first f fs in
      let spaced = rw shape at (merged-IsSpaced f fs s.1) in rw (stops, shape) (s.0, spaced)
]
  where
    joined :
        adjacent e f ≡ true → (gs : List Extent) → IsSpaced (e ∷ f ∷ gs) → IsSpaced (grow e f ∷ gs)
    joined joins [] t = tt
    joined joins (g ∷ gs) t = (ground (arith, joins, t.0, t.1.0), t.1.1)

-- What begins behind an extent of a spaced list does not lie in it.
past_spaced :
    (e : Extent) (fs : List Extent) (a : ℕ)
    → IsSpaced (e ∷ fs)
    → a < e.start + e.size
    → covered a fs ≡ false
past_spaced e [] a s lt = refl
past_spaced e (f ∷ fs) a s lt = ground (arith, s.0, past_spaced f fs a s.1)

pub IsSpaced-IsDisjoint : (es : List Extent) → IsSpaced es → IsDisjoint es
IsSpaced-IsDisjoint [] s = tt
IsSpaced-IsDisjoint (e ∷ []) s = (λ a. ground arith, tt)
IsSpaced-IsDisjoint (e ∷ f ∷ fs) s =
    (λ a. ground (arith, past_spaced e (f ∷ fs) a s), IsSpaced-IsDisjoint (f ∷ fs) s.1)

module _ (m : Memory) where
  pub total-extents : (xs : List ℕ) → total (extents m xs) ≡ sum_of m.size xs
  total-extents [] = refl
  total-extents (x ∷ xs) = ap (λ n. m.size x + n) (total-extents xs)

  -- An address that is covered lies in one of the blocks.
  pub covering :
      (a : ℕ) (xs : List ℕ)
      → covered a (extents m xs) ≡ true
      → (b : ℕ) × (has b xs ≡ true) × (inside a (extent m b) ≡ true)
  covering a [] c = absurd (ground arith)
  covering a (x ∷ xs) c = elim (Bool-cases (inside a (extent m x))) [
    | inl here ↦ (x, ground arith, here)
    | inr later ↦ let (b, i, lies) = covering a xs (ground arith) in (b, ground arith, lies)
  ]

  pub covers :
      (a b : ℕ) (xs : List ℕ)
      → has b xs ≡ true
      → inside a (extent m b) ≡ true
      → covered a (extents m xs) ≡ true
  covers a b [] i lies = absurd (ground arith)
  covers a b (x ∷ xs) i lies = elim (Bool-cases (b == x)) [
    | inl here ↦ (let e : b ≡ x = ground arith in (let l = rw e at lies in ground arith))
    | inr later ↦ ground (arith, covers a b xs (ground arith) lies)
  ]

  pub AllFit-at :
      (b : ℕ) (xs : List ℕ) → AllFit (extents m xs) → has b xs ≡ true → AllFit (extent m b ∷ [])
  AllFit-at b [] fit i = absurd (ground arith)
  AllFit-at b (x ∷ xs) fit i = elim (Bool-cases (b == x)) [
    | inl here ↦ (let e : b ≡ x = ground arith in rw e (fit.0, fit.1, fit.2, tt))
    | inr later ↦ AllFit-at b xs fit.3 (ground arith)
  ]

  pub AllFit-all :
      (xs : List ℕ) → ((b : ℕ) → has b xs ≡ true → AllFit (extent m b ∷ [])) → AllFit (extents m xs)
  AllFit-all [] h = tt
  AllFit-all (x ∷ xs) h =
      let f = h x (ground arith) in (f.0, f.1, f.2, AllFit-all xs (λ b i. h b (ground arith)))

  -- Two blocks of a disjoint list have no address in common.
  pub disjoint_at :
      (a b c : ℕ) (xs : List ℕ)
      → IsDisjoint (extents m xs)
      → has b xs ≡ true
      → has c xs ≡ true
      → b ≢ c
      → inside a (extent m b) ≡ true
      → inside a (extent m c) ≡ false
  disjoint_at a b c [] d i j ne lies = absurd (ground arith)
  disjoint_at a b c (x ∷ xs) d i j ne lies = elim (Bool-cases (inside a (extent m c))) [
    | inr out ↦ out
    | inl both ↦ elim (Bool-cases (b == x)) [
      | inl here ↦
          let e : b ≡ x = ground arith in
          let here_too = rw e at lies in
          absurd (ground (arith, d.0 a, here_too, covers a c xs (ground arith) both))
      | inr later ↦ elim (Bool-cases (c == x)) [
        | inl here ↦
            let e : c ≡ x = ground arith in
            let here_too = rw e at both in
            absurd (ground (arith, d.0 a, here_too, covers a b xs (ground arith) lies))
        | inr last ↦ disjoint_at a b c xs d.1 (ground arith) (ground arith) ne lies
      ]
    ]
  ]

  -- Disjoint blocks in the order of their addresses are spaced.
  pub rising-IsSpaced :
      (xs : List ℕ)
      → IsRising xs
      → AllFit (extents m xs)
      → ((a b c : ℕ)
          → has b xs ≡ true
          → has c xs ≡ true
          → b ≢ c
          → inside a (extent m b) ≡ true
          → inside a (extent m c) ≡ false)
      → IsSpaced (extents m xs)
  rising-IsSpaced [] r fit apart = tt
  rising-IsSpaced (x ∷ []) r fit apart = tt
  rising-IsSpaced (x ∷ y ∷ ys) r fit apart = (
    (let lt = r.0 y (ground arith) in
        ground (arith, fit.3.1, apart y x y (ground arith) (ground arith) (ground arith))),
    rising-IsSpaced (y ∷ ys) r.1 fit.3
        (λ a b c i j ne lies. apart a b c (ground arith) (ground arith) ne lies),
  )

  -- What is covered depends only on which blocks there are.
  pub covered-members :
      (a : ℕ) (xs ys : List ℕ)
      → ((b : ℕ) → has b xs ≡ has b ys)
      → covered a (extents m xs) ≡ covered a (extents m ys)
  covered-members a xs ys same = elim (Bool-cases (covered a (extents m xs))) [
    | inl within ↦
        let (b, i, lies) = covering a xs within in
        within ∙ sym (covers a b ys (sym (same b) ∙ i) lies)
    | inr out ↦ elim (Bool-cases (covered a (extents m ys))) [
      | inl within ↦
          let (b, i, lies) = covering a ys within in
          absurd (ground (arith, covers a b xs (same b ∙ i) lies))
      | inr neither ↦ out ∙ sym neither
    ]
  ]

  -- An address that is not covered is none of the blocks.
  pub fresh_lem :
      (b : ℕ) (xs : List ℕ)
      → AllFit (extents m xs)
      → covered b (extents m xs) ≡ false
      → has b xs ≡ false
  fresh_lem b xs fit out = elim (Bool-cases (has b xs)) [
    | inr absent ↦ absent
    | inl i ↦
        let f = AllFit-at b xs fit i in
        absurd (ground (arith, covers b b xs i (ground (arith, f.1))))
  ]
