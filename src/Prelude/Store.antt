-- ===== src/Prelude/Store.antt =====
-- Memory that a component is handed by its caller: a value for each index. A write changes one index.
use Prim.Native.Nat.{ℕ, zero, suc, ◌<◌}
use mathlib.Core.Path.{sym, ap, fun_ext, ◌≡◌, refl, ap₂}
use mathlib.Core.List.{List, [], ◌∷◌, ◌++◌}
use native.Mathlib.Omega.{arith}
use mathlib.Core.Logic.{inl, inr}
use bez_os.Prelude.Tests.{Bool-cases, ==_iff, ◌==◌, if◌then◌else◌}

module _ {ℓ} {A : Type ℓ} where
  abbrev pub write : (ℕ → A) → ℕ → A → ℕ → A
  write s i v j = if j == i then v else s j

  -- The values at the indices `i`, `i + 1`, … of the first `n`.
  abbrev pub tabulate : ℕ → (ℕ → A) → List A
  tabulate zero f = []
  tabulate (suc n) f = f 0 ∷ tabulate n (λ i. f (suc i))

  pub tabulate-ext :
      (n : ℕ) (f g : ℕ → A) → ((i : ℕ) → i < n → f i ≡ g i) → tabulate n f ≡ tabulate n g
  tabulate-ext zero f g h = refl
  tabulate-ext (suc n) f g h =
      ap₂ ◌∷◌ (h 0 (omega arith))
        (tabulate-ext n (λ i. f (suc i)) (λ i. g (suc i)) (λ i lt. h (suc i) (omega arith)))

  -- One more value goes to the end.
  pub tabulate-suc : (n : ℕ) (f : ℕ → A) → tabulate (suc n) f ≡ tabulate n f ++ (f n ∷ [])
  tabulate-suc zero f = refl
  tabulate-suc (suc n) f = ap₂ ◌∷◌ refl (tabulate-suc n (λ i. f (suc i)))

-- Writing what is there already changes nothing.
pub write_same {ℓ} : {A : Type ℓ} (s : ℕ → A) (i : ℕ) → write s i (s i) ≡ s
write_same s i =
    fun_ext λ j. elim (Bool-cases (j == i)) [
      | inl e ↦ rw e (sym (ap s ((==_iff j i).0 e)))
      | inr e ↦ rw e
    ]

-- A statement about each number below a bound, as the list of its instances.
abbrev pub Every : ℕ → (ℕ → Type 0) → Type 0
Every zero P = Unit
Every (suc n) P = P 0 × Every n (λ i. P (suc i))

pub Every-at : (n : ℕ) (P : ℕ → Type 0) → Every n P → (i : ℕ) → i < n → P i
Every-at zero P h i lt = absurd (omega arith)
Every-at (suc n) P h zero lt = h.0
Every-at (suc n) P h (suc i) lt = Every-at n (λ k. P (suc k)) h.1 i (omega arith)
