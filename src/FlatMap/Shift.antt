-- ===== src/FlatMap/Shift.antt =====
-- What the two shifting loops leave where, and the arrays they leave.
use bez_os.Prelude.{
  ltb, leb, ◌==◌, if◌then◌else◌, Bool-cases, ℕ, zero, suc, ◌+◌, ◌-◌, ◌≤◌, ◌<◌, ◌≡◌, ◌≢◌, inl, inr,
  ◌&&◌, arith,
}
use bez_os.FlatMap.Search.{IsSorted, Splits}
use bez_os.FlatMap.{shift_up, shift_down, write}

pub shift_up_lem :
    {A : Type 0} (n i j : ℕ) (a : ℕ → A)
    → n ≤ i
    → shift_up n i a j ≡ (if ltb (i - n) j && leb j i then a (j - 1) else a j)
unfolding shift_up
shift_up_lem zero i j a h = ground arith
shift_up_lem (suc n) i j a h =
    ground (arith, shift_up_lem n (i - 1) j (write a i (a (i - 1))) (omega arith))

pub shift_down_lem :
    {A : Type 0} (n i j : ℕ) (a : ℕ → A)
    → shift_down n i a j ≡ (if leb i j && ltb j (i + n) then a (j + 1) else a j)
unfolding shift_down
shift_down_lem zero i j a = ground arith
shift_down_lem (suc n) i j a = ground (arith, shift_down_lem n (i + 1) j (write a i (a (i + 1))))

-- The entries once room is made for a new key, and once a key is gone.
abbrev pub opened : {A : Type 0} → (ℕ → A) → ℕ → ℕ → A → ℕ → A
opened a count index x = write (shift_up (count - index) count a) index x

pub opened_lem :
    {A : Type 0} (a : ℕ → A) (count index : ℕ) (x : A) (j : ℕ)
    → index ≤ count
    → j ≤ count
    → opened a count index x j ≡ (if j == index then x else if ltb j index then a j else a (j - 1))
opened_lem a count index x j within inside =
    ground (arith, shift_up_lem (count - index) count j a (omega arith))

abbrev pub closed : {A : Type 0} → (ℕ → A) → ℕ → ℕ → ℕ → A
closed a count index = shift_down (count - 1 - index) index a

pub closed_lem :
    {A : Type 0} (a : ℕ → A) (count index j : ℕ)
    → j < count - 1
    → closed a count index j ≡ (if ltb j index then a j else a (j + 1))
closed_lem a count index j inside = ground (arith, shift_down_lem (count - 1 - index) index j a)

-- A new key put in its place keeps the keys rising.
pub opened-IsSorted :
    (keys : ℕ → ℕ) (n key index : ℕ)
    → IsSorted keys n
    → Splits keys n key index
    → ((i : ℕ) → i < n → keys i ≢ key)
    → IsSorted (opened keys n index key) (n + 1)
opened-IsSorted keys n key index sorted s away i j lt inside =
    let ei = opened_lem keys n index key i s.within (omega arith) in
    let ej = opened_lem keys n index key j s.within (omega arith) in
    rw (ei, ej)
      (elim (Bool-cases (ltb i index)) [
        | inl low ↦ elim (Bool-cases (ltb index j)) [
          | inl high ↦ ground (
            arith,
            s.before i (ground arith),
            sorted i (j - 1),
            s.from_there (j - 1) (ground arith) (ground arith),
          )
          | inr below ↦ ground (arith, s.before i (ground arith), sorted i j lt)
        ]
        | inr high ↦ elim (Bool-cases (i == index)) [
          | inl here ↦ ground (
            arith,
            away (j - 1) (ground arith),
            s.from_there (j - 1) (ground arith) (ground arith),
          )
          | inr above ↦ ground (arith, sorted (i - 1) (j - 1) (ground arith) (ground arith))
        ]
      ])

pub closed-IsSorted :
    (keys : ℕ → ℕ) (n index : ℕ) → IsSorted keys n → IsSorted (closed keys n index) (n - 1)
closed-IsSorted keys n index sorted i j lt inside =
    let ei = closed_lem keys n index i (omega arith) in
    let ej = closed_lem keys n index j (omega arith) in
    rw (ei, ej)
      (elim (Bool-cases (ltb i index)) [
        | inl low ↦ elim (Bool-cases (ltb j index)) [
          | inl below ↦ ground (arith, sorted i j lt (omega arith))
          | inr above ↦ ground (arith, sorted i (j + 1) (omega arith) (omega arith))
        ]
        | inr high ↦ ground (arith, sorted (i + 1) (j + 1) (omega arith) (omega arith))
      ])
