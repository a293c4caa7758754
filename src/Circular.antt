-- ===== src/Circular.antt =====
-- Circular buffers: where an index lands in storage of a given size, and the values from a slot on.
use bez_os.Prelude.{
  ltb, ◌==◌, if◌then◌else◌, ==_iff, tests, Bool-cases, ℕ, suc, ◌+◌, ◌-◌, ◌%◌, ◌≤◌, ◌<◌, ◌≡◌, refl,
  ap, ap₂, ◌∙◌, ◌≢◌, inl, inr, true, List, [], ◌∷◌, ◌++◌, arith, add-one, mod-eq_of_lt,
  mod-eq-sub-mod, mod-add-mod, add-zero,
}
use bez_os.Prelude.Store.{write, tabulate, tabulate-ext, tabulate-suc}

-- Where an index lands, at most one turn on.
pub wrap :
    (size a i : ℕ)
    → a < size
    → i ≤ size
    → (a + i) % size ≡ (if ltb (a + i) size then a + i else a + i - size)
wrap size a i h k = elim (Bool-cases (ltb (a + i) size)) [
  | inl e ↦ rw e (mod-eq_of_lt (omega tests))
  | inr e ↦ rw e (
      mod-eq-sub-mod {n = a + i} {m = size} (ground arith)
      ∙ mod-eq_of_lt {n = a + i - size} {m = size} (omega arith))
]

module _ {ℓ} {A : Type ℓ} where
  -- The `n` values from slot `b` on, going round at `size`.
  unfoldable pub window : (ℕ → A) → ℕ → ℕ → ℕ → List A
  window s size b n = tabulate n (λ i. s ((b + i) % size))

  pub window_nil : (s : ℕ → A) (size b : ℕ) → window s size b 0 ≡ []
  unfolding window
  window_nil s size b = refl

  pub window-suc :
      (s : ℕ → A) (size b n : ℕ)
      → b < size
      → window s size b (suc n) ≡ s b ∷ window s size ((b + 1) % size) n
  unfolding window
  window-suc s size b n h =
      ap₂ ◌∷◌ (ap s (rw add-zero (mod-eq_of_lt h)))
        (tabulate-ext n _ _ (λ i _. ap s (rw mod-add-mod (ap (λ k. k % size) (omega arith)))))

  pub window_last :
      (s : ℕ → A) (size b n : ℕ)
      → window s size b (suc n) ≡ window s size b n ++ (s ((b + n) % size) ∷ [])
  unfolding window
  window_last s size b n = tabulate-suc n (λ i. s ((b + i) % size))

  -- A write to a slot outside a window does not show in it.
  pub window-write :
      (s : ℕ → A) (size b n k : ℕ) (e : A)
      → ((i : ℕ) → i < n → (b + i) % size ≢ k)
      → window (write s k e) size b n ≡ window s size b n
  unfolding window
  window-write s size b n k e h =
      tabulate-ext n (λ i. write s k e ((b + i) % size)) (λ i. s ((b + i) % size))
        (λ i lt. ground (arith, h i lt))

  pub window_lookup :
      (s t : ℕ → A) (size b c n : ℕ)
      → ((i : ℕ) → i < n → s ((b + i) % size) ≡ t ((c + i) % size))
      → window s size b n ≡ window t size c n
  unfolding window
  window_lookup s t size b c n h = tabulate-ext n _ _ h

pub step_mod : (size b n : ℕ) → ((b + n) % size + 1) % size ≡ (b + (n + 1)) % size
step_mod size b n = mod-add-mod (b + n) size 1 ∙ ap (λ k. k % size) (omega arith)

-- The slot behind a window that does not fill the storage is not in it.
pub free_slot : (size b n i : ℕ) → b < size → n < size → i < n → (b + i) % size ≢ (b + n) % size
free_slot size b n i hb hn hi = ground (arith, wrap size b i hb, wrap size b n hb)

-- The window from the next slot on after a value goes to the free slot behind it.
pub window-write_last {ℓ} :
    {A : Type ℓ} (s : ℕ → A) (size b n : ℕ) (e : A)
    → b < size
    → n < size
    → window (write s ((b + n) % size) e) size b (n + 1) ≡ window s size b n ++ (e ∷ [])
window-write_last s size b n e hb hn = rw (add-one n) (
    ground (
      arith,
      window_last (write s ((b + n) % size) e) size b n,
      window-write s size b n ((b + n) % size) e λ i lt. free_slot size b n i hb hn lt,
    ))

pub window_of_zero {ℓ} :
    {A : Type ℓ} (s : ℕ → A) (size b n : ℕ) → (n == 0) ≡ true → window s size b n ≡ []
window_of_zero s size b n e = ap (window s size b) ((==_iff n 0).0 e) ∙ window_nil s size b
