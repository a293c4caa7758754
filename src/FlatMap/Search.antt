-- ===== src/FlatMap/Search.antt =====
-- Where a key belongs in a sorted array.
use bez_os.Prelude.{ltb, ◌==◌, Bool-cases, ℕ, zero, suc, ◌+◌, ◌≤◌, ◌<◌, ◌≡◌, inl, inr, arith}
use bez_os.FlatMap.{lower_bound}

-- The keys rise strictly.
abbrev pub IsSorted : (ℕ → ℕ) → ℕ → Type 0
IsSorted keys n = (i j : ℕ) → i < j → j < n → keys i < keys j

-- All keys before a place are below a key, and all from there on are not.
pub record Splits (keys : ℕ → ℕ) (n key index : ℕ) : Type 0 where
  pub within : index ≤ n
  pub before : (i : ℕ) → i < index → keys i < key
  pub from_there : (i : ℕ) → index ≤ i → i < n → key ≤ keys i

lower_bound_scan :
    (left i : ℕ) (keys : ℕ → ℕ) (key n : ℕ)
    → IsSorted keys n
    → i + left ≡ n
    → ((j : ℕ) → j < i → keys j < key)
    → Splits keys n key (lower_bound left i keys key)
unfolding lower_bound
lower_bound_scan zero i keys key n sorted e below = record {
  within = omega arith;
  before = below;
  from_there = λ j lo hi. absurd (omega arith);
}
lower_bound_scan (suc left) i keys key n sorted e below = elim (Bool-cases (ltb (keys i) key)) [
  | inl less ↦ rw less (
      lower_bound_scan left (i + 1) keys key n sorted (omega arith) (λ j lt.
        elim (Bool-cases (j == i)) [
          | inl same ↦ ground arith
          | inr other ↦ below j (ground arith)
        ]))
  | inr not_less ↦ rw not_less (record {
    within = omega arith;
    before = below;
    from_there = λ j lo hi. elim (Bool-cases (j == i)) [
      | inl same ↦ ground arith
      | inr other ↦ ground (arith, sorted i j (ground arith) hi)
    ];
  })
]

-- In a sorted array `lower_bound` splits the keys at the key sought.
pub lower_bound-Splits :
    (keys : ℕ → ℕ) (key n : ℕ) → IsSorted keys n → Splits keys n key (lower_bound n 0 keys key)
lower_bound-Splits keys key n sorted =
    lower_bound_scan n 0 keys key n sorted (omega arith) (λ j lt. absurd (omega arith))
