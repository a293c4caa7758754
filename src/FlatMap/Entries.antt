-- ===== src/FlatMap/Entries.antt =====
-- The map as a function from keys to values.
use bez_os.Prelude.{
  ltb, ◌==◌, Bool-cases, ◌≤◌, ◌<◌, ◌≡◌, refl, ap, ◌≢◌, ◌⊎◌, inl, inr, true, false, Option, none,
  some, arith,
}
use bez_os.FlatMap.{FlatMap, find, place_of, is_at, ℕ}
use bez_os.FlatMap.Search.{IsSorted, lower_bound-Splits}

module _ {V : Type 0} where
  -- What a call relies on: the keys rise, and are no more than fit.
  pub record IsValid (m : FlatMap V) : Type 0 where
    pub rising : IsSorted m.keys m.count
    pub within : m.count ≤ m.capacity

  pub key_unique :
      (m : FlatMap V) (i j : ℕ)
      → IsSorted m.keys m.count
      → i < m.count
      → j < m.count
      → m.keys i ≡ m.keys j
      → i ≡ j
  key_unique m i j sorted hi hj e = elim (Bool-cases (ltb i j)) [
    | inl low ↦ absurd (omega (arith, sorted i j (ground arith) hj, e))
    | inr high ↦ elim (Bool-cases (ltb j i)) [
      | inl above ↦ absurd (omega (arith, sorted j i (ground arith) hi, e))
      | inr same ↦ ground arith
    ]
  ]

  -- The search finds the place of a key that is there, and no place for one that is not.
  pub place_lem :
      (m : FlatMap V) (key : ℕ)
      → IsSorted m.keys m.count
      → ((is_at m (place_of m key) key ≡ true)
          × (place_of m key < m.count)
          × (m.keys (place_of m key) ≡ key))
        ⊎ ((is_at m (place_of m key) key ≡ false) × ((i : ℕ) → i < m.count → m.keys i ≢ key))
  place_lem m key sorted =
      let s = lower_bound-Splits m.keys key m.count sorted in
      elim (Bool-cases (is_at m (place_of m key) key)) [
        | inl hit ↦ inl (hit, ground (arith, s.within), ground (arith, s.within))
        | inr miss ↦ inr (
          miss,
          λ i lt. elim (Bool-cases (ltb i (place_of m key))) [
            | inl low ↦ ground (arith, s.before i (ground arith))
            | inr high ↦ elim (Bool-cases (i == place_of m key)) [
              | inl there ↦ ground (arith, s.from_there i (ground arith) lt)
              | inr later ↦ ground (
                arith,
                sorted (place_of m key) i (ground arith) lt,
                s.from_there (place_of m key) (ground arith) (ground arith),
              )
            ]
          ],
        )
      ]

  -- A key that is there is found with its value.
  pub find_at :
      (m : FlatMap V) (i : ℕ)
      → IsSorted m.keys m.count
      → i < m.count
      → find m (m.keys i) ≡ some (m.values i)
  unfolding find
  find_at m i sorted lt = elim (place_lem m (m.keys i) sorted) [
    | inl (hit, inside, same) ↦
        rw hit (
          ap (λ j. some (m.values j))
            (key_unique m (place_of m (m.keys i)) i sorted inside lt same))
    | inr (miss, absent_here) ↦ absurd (absent_here i lt refl)
  ]

  -- A key that is not there is not found.
  pub find-none :
      (m : FlatMap V) (key : ℕ)
      → IsSorted m.keys m.count
      → ((i : ℕ) → i < m.count → m.keys i ≢ key)
      → find m key ≡ none
  unfolding find
  find-none m key sorted absent = elim (place_lem m key sorted) [
    | inl (hit, inside, same) ↦ absurd (absent (place_of m key) inside same)
    | inr (miss, _) ↦ rw miss refl
  ]

  -- What `find` gives, told from every entry that holds the key.
  pub find_by :
      (m : FlatMap V) (key : ℕ) (o : Option V)
      → IsSorted m.keys m.count
      → ((i : ℕ) → i < m.count → m.keys i ≡ key → some (m.values i) ≡ o)
      → (((i : ℕ) → i < m.count → m.keys i ≢ key) → none ≡ o)
      → find m key ≡ o
  unfolding find
  find_by m key o sorted here absent = elim (place_lem m key sorted) [
    | inl (hit, inside, same) ↦ rw hit (here (place_of m key) inside same)
    | inr (miss, away) ↦ rw miss (absent away)
  ]
