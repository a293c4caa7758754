-- ===== src/Uuid/Order.antt =====
-- The order of identifiers, and their version and variant fields.
use bez_os.Prelude.{
  ltb, ◌==◌, Bool-cases, ℕ, zero, suc, ◌+◌, ◌/◌, ◌%◌, ◌≤◌, ◌<◌, ◌≡◌, refl, ◌≢◌, ◌⊎◌, inl, inr,
  arith,
}
use bez_os.Uuid.{
  Bytes, Ordering, less, equal, greater, compare_from, compare_octets, version, set_version,
  variant,
}

-- What a comparison from place `i` on says.
abbrev pub Says : Bytes → Bytes → ℕ → ℕ → Ordering → Type 0
Says a b i end o =
    ((o ≡ equal) × ((k : ℕ) → i ≤ k → k < end → a k ≡ b k))
    ⊎ ((j : ℕ) × (i ≤ j)
        × (j < end)
        × ((k : ℕ) → i ≤ k → k < j → a k ≡ b k)
        × (((o ≡ less) × (a j < b j)) ⊎ ((o ≡ greater) × (b j < a j))))

compare_from_lem : (left i : ℕ) (a b : Bytes) → Says a b i (i + left) (compare_from left i a b)
unfolding compare_from
compare_from_lem zero i a b = inl (refl, λ k lo hi. absurd (omega arith))
compare_from_lem (suc left) i a b = elim (Bool-cases (a i == b i)) [
  | inl same ↦
      let here : a i ≡ b i = ground arith in
      elim (compare_from_lem left (i + 1) a b) [
        | inl (e, alike) ↦ inl (
          rw same e,
          λ k lo hi. elim (Bool-cases (k == i)) [
            | inl at ↦ ground arith
            | inr later ↦ alike k (ground arith) (ground arith)
          ],
        )
        | inr (j, lo, hi, alike, verdict) ↦ inr (
          j,
          omega arith,
          omega arith,
          λ k klo khi. elim (Bool-cases (k == i)) [
            | inl at ↦ ground arith
            | inr later ↦ alike k (ground arith) (ground arith)
          ],
          rw same verdict,
        )
      ]
  | inr differ ↦ inr (
    i,
    omega arith,
    omega arith,
    λ k lo hi. absurd (omega arith),
    elim (Bool-cases (ltb (a i) (b i))) [
      | inl below ↦ inl (rw (differ, below) refl, ground arith)
      | inr above ↦ inr (rw (differ, above) refl, ground arith)
    ],
  )
]

-- The comparison of two identifiers is the order of their octets: they are equal if all sixteen are, and
-- otherwise the first octet that differs decides.
pub compare_octets_lem : (a b : Bytes) → Says a b 0 16 (compare_octets a b)
unfolding compare_octets
compare_octets_lem a b = compare_from_lem 16 0 a b

-- `setVersion` of four bits is read back by `version`; it changes no other octet and not the low half of
-- its own.
pub version-set_version :
    (octets : Bytes) (v i : ℕ)
    → v < 16
    → i ≢ 6
    → (version (set_version octets v) ≡ v)
      × (set_version octets v 6 % 16 ≡ octets 6 % 16)
      × (set_version octets v i ≡ octets i)
unfolding version set_version
version-set_version octets v i h ne = (omega arith, omega arith, ground arith)

-- For an octet of the two leading bits 1 and 0 `variant` gives 2, which is `eDCE`; for one of the bits 1, 1
-- and 0 it gives 12 and not the 6 of `eMicrosoft`.
variant_lem :
    (octets : Bytes)
    → ((128 ≤ octets 8) × (octets 8 < 192) × (variant octets ≡ 2))
      ⊎ ((192 ≤ octets 8) × (octets 8 < 224) × (variant octets ≡ 12))
      ⊎ (((octets 8 < 128) ⊎ (224 ≤ octets 8)) × (variant octets ≡ octets 8 / 16))
unfolding variant
variant_lem octets = ground arith
