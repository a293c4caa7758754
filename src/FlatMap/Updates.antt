-- ===== src/FlatMap/Updates.antt =====
-- What a client sees of the map: `find` after `insert` and after `remove`.
use bez_os.FlatMap.Search.{IsSorted, lower_bound-Splits}
use bez_os.Prelude.{
  ltb, ◌==◌, if◌then◌else◌, Bool-cases, ℕ, ◌+◌, ◌-◌, ◌<◌, ◌≡◌, refl, sym, ◌≢◌, ◌⊎◌, inl, inr, none,
  some, arith,
}
use bez_os.FlatMap.{
  FlatMap, find, insert, remove, place_of, is_full, out_of_memory, not_found, success, write,
}
use bez_os.FlatMap.Entries.{IsValid, place_lem, find_by, find_at, find-none, key_unique}
use bez_os.FlatMap.Shift.{opened, closed, opened_lem, closed_lem, opened-IsSorted, closed-IsSorted}

module _ {V : Type 0} where
  -- The map with a new entry in the gap, and without the entry at a place.
  abbrev entered : FlatMap V → ℕ → V → FlatMap V
  entered m key value =
      let index = place_of m key in
      record m {
        keys = opened m.keys m.count index key;
        values = opened m.values m.count index value;
        count = m.count + 1;
      }

  abbrev removed : FlatMap V → ℕ → FlatMap V
  removed m index = record m {
    keys = closed m.keys m.count index;
    values = closed m.values m.count index;
    count = m.count - 1;
  }

  find-entered :
      (m : FlatMap V) (key : ℕ) (value : V) (k : ℕ)
      → IsSorted m.keys m.count
      → ((i : ℕ) → i < m.count → m.keys i ≢ key)
      → find (entered m key value) k ≡ (if k == key then some value else find m k)
  find-entered m key value k sorted away =
      let index = place_of m key in
      let s = lower_bound-Splits m.keys key m.count sorted in
      find_by (entered m key value) k _ (opened-IsSorted m.keys m.count key index sorted s away)
        (λ i lt e.
          let ek = opened_lem m.keys m.count index key i s.within (omega arith) in
          let ev = opened_lem m.values m.count index value i s.within (omega arith) in
          rw ev (elim (Bool-cases (i == index)) [
            | inl here ↦ ground arith
            | inr other ↦ elim (Bool-cases (ltb i index)) [
              | inl low ↦ ground (arith, find_at m i sorted (ground arith), away i (ground arith))
              | inr high ↦
                  ground
                    (arith, find_at m (i - 1) sorted (ground arith), away (i - 1) (ground arith))
            ]
          ]))
        (λ gone.
          let here = opened_lem m.keys m.count index key index s.within s.within in
          let other : k ≢ key = λ e. gone index (omega (arith, s.within)) (ground arith) in
          let missing : find m k ≡ none = find-none m k sorted λ i lt e.
            elim (Bool-cases (ltb i index)) [
              | inl low ↦
                  gone i (omega arith)
                    (ground (arith, opened_lem m.keys m.count index key i s.within (omega arith)))
              | inr high ↦ gone (i + 1) (omega arith) (
                  ground
                    (arith, opened_lem m.keys m.count index key (i + 1) s.within (omega arith)))
            ] in
          ground arith)

  find-removed :
      (m : FlatMap V) (index k : ℕ)
      → IsSorted m.keys m.count
      → index < m.count
      → find (removed m index) k ≡ (if k == m.keys index then none else find m k)
  find-removed m index k sorted inside =
      find_by (removed m index) k _ (closed-IsSorted m.keys m.count index sorted)
        (λ i lt e.
          let ek = closed_lem m.keys m.count index i lt in
          let ev = closed_lem m.values m.count index i lt in
          rw ev (elim (Bool-cases (ltb i index)) [
            | inl low ↦
                ground
                  (arith, find_at m i sorted (ground arith), sorted i index (ground arith) inside)
            | inr high ↦ ground (
              arith,
              find_at m (i + 1) sorted (ground arith),
              sorted index (i + 1) (ground arith) (ground arith),
            )
          ]))
        (λ gone. elim (Bool-cases (k == m.keys index)) [
          | inl same ↦ ground arith
          | inr other ↦ rw other (
              sym (
                find-none m k sorted λ i lt e. elim (Bool-cases (ltb i index)) [
                  | inl low ↦
                      gone i (ground arith)
                        (ground (arith, closed_lem m.keys m.count index i (ground arith)))
                  | inr high ↦ elim (Bool-cases (i == index)) [
                    | inl here ↦ ground arith
                    | inr above ↦
                        gone (i - 1) (ground arith)
                          (ground (arith, closed_lem m.keys m.count index (i - 1) (ground arith)))
                  ]
                ]))
        ])

  find-replaced :
      (m : FlatMap V) (index : ℕ) (value : V) (k : ℕ)
      → IsSorted m.keys m.count
      → index < m.count
      → find (record m { values = write m.values index value }) k
        ≡ (if k == m.keys index then some value else find m k)
  find-replaced m index value k sorted inside =
      find_by (record m { values = write m.values index value }) k _ sorted
        (λ i lt e. elim (Bool-cases (i == index)) [
          | inl here ↦ ground arith
          | inr other ↦
              let apart : i ≢ index = ground arith in
              let away : m.keys i ≢ m.keys index =
                λ same. apart (key_unique m i index sorted lt inside same) in
              ground (arith, find_at m i sorted lt)
        ])
        (λ gone. let other = gone index inside in ground (arith, find-none m k sorted gone))

  -- An insertion into a valid map that is not full succeeds and makes its key lead to its value; what every
  -- other key leads to stays, and so does the map's validity. A full map is left unchanged and the caller
  -- told so, whether the key is there or not.
  pub find-insert :
      (m : FlatMap V) (key : ℕ) (value : V)
      → IsValid m
      → let (m', status) = insert m key value in
        if is_full m
        then (m' ≡ m) × (status ≡ out_of_memory)
        else (status ≡ success)
          × IsValid m'
          × ((k : ℕ) → find m' k ≡ (if k == key then some value else find m k))
  unfolding insert is_full
  find-insert m key value v = elim (Bool-cases (m.count == m.capacity)) [
    | inl full ↦ rw full (refl, refl)
    | inr room ↦ elim (place_lem m key v.rising) [
      | inl (hit, inside, same) ↦
          rw (room, hit)
            (
              refl,
              record { rising = v.rising; within = v.within },
              λ k. ground (arith, find-replaced m (place_of m key) value k v.rising inside, same),
            )
      | inr (miss, away) ↦
          rw (room, miss)
            (
              refl,
              record {
                rising =
                    opened-IsSorted m.keys m.count key (place_of m key) v.rising
                      (lower_bound-Splits m.keys key m.count v.rising) away;
                within = ground (arith, v.within);
              },
              λ k. find-entered m key value k v.rising away,
            )
    ]
  ]

  -- A removal from a valid map makes its key lead nowhere; what every other key leads to stays, and so does
  -- the map's validity. For a key that leads nowhere the map is unchanged and the caller told so.
  pub find-remove :
      (m : FlatMap V) (key : ℕ)
      → IsValid m
      → let (m', status) = remove m key in
        IsValid m'
        × ((k : ℕ) → find m' k ≡ (if k == key then none else find m k))
        × (((find m key ≡ none) × (status ≡ not_found) × (m' ≡ m))
            ⊎ ((find m key ≢ none) × (status ≡ success)))
  unfolding remove
  find-remove m key v = elim (place_lem m key v.rising) [
    | inl (hit, inside, same) ↦ rw hit (
      record {
        rising = closed-IsSorted m.keys m.count (place_of m key) v.rising;
        within = ground (arith, v.within);
      },
      λ k. ground (arith, find-removed m (place_of m key) k v.rising inside, same),
      inr (ground (arith, find_at m (place_of m key) v.rising inside, same), refl),
    )
    | inr (miss, away) ↦
        let nowhere = find-none m key v.rising away in
        rw miss (v, λ k. ground (arith, nowhere), inl (nowhere, refl, refl))
  ]
