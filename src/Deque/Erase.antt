-- ===== src/Deque/Erase.antt =====
-- The moves of `std::copy`, and the list without one element.
use bez_os.Deque.{copy_n, write}
use bez_os.Prelude.Store.{tabulate, tabulate-ext}
use bez_os.Prelude.{
  ltb, leb, if◌then◌else◌, ℕ, zero, suc, ◌+◌, ◌-◌, ◌≤◌, ◌<◌, ◌≡◌, ap₂, ◌∙◌, ◌&&◌, List, [], ◌∷◌,
  arith,
}

-- A copy to lower places moves every element of the span.
pub copy_n_lem :
    {A : Type 0} (n src dest j : ℕ) (s : ℕ → A)
    → dest < src
    → copy_n n src dest s j ≡ (if leb dest j && ltb j (dest + n) then s (j + (src - dest)) else s j)
unfolding copy_n
copy_n_lem zero src dest j s h = ground arith
copy_n_lem (suc n) src dest j s h =
    ground (arith, copy_n_lem n (src + 1) (dest + 1) j (write s dest (s src)) (omega arith))

-- The list without the element at an index.
unfoldable pub erase_at {ℓ} : {A : Type ℓ} → ℕ → List A → List A
erase_at n [] = []
erase_at zero (x ∷ xs) = xs
erase_at (suc n) (x ∷ xs) = x ∷ erase_at n xs

pub erase_at-tabulate :
    {A : Type 0} (n index : ℕ) (f : ℕ → A)
    → index ≤ n
    → erase_at index (tabulate (suc n) f) ≡ tabulate n (λ i. f (if ltb i index then i else suc i))
unfolding erase_at
erase_at-tabulate n zero f h = tabulate-ext n _ _ λ i lt. ground arith
erase_at-tabulate zero (suc index) f h = absurd (omega arith)
erase_at-tabulate (suc n) (suc index) f h = ap₂ ◌∷◌ (ground arith) (
    erase_at-tabulate n index (λ i. f (suc i)) (omega arith)
    ∙ tabulate-ext n _ (λ i. f (if ltb (suc i) (suc index) then suc i else suc (suc i)))
        λ i lt. ground arith)
