-- ===== src/Deque/Remove.antt =====
-- `remove`: the moves of `std::copy` close the gap, wherever the elements wrap round.
use bez_os.Circular.{wrap, window}
use bez_os.Deque.Ends.{pop_front_lem}
use bez_os.Deque.Erase.{copy_n_lem, erase_at, erase_at-tabulate}
use bez_os.Deque.Contents.{IsValid, contents}
use bez_os.Prelude.Store.{tabulate, tabulate-ext}
use bez_os.Prelude.{
  ltb, leb, ◌==◌, if◌then◌else◌, Bool-cases, ℕ, suc, ◌+◌, ◌-◌, ◌%◌, ◌≤◌, ◌<◌, ◌≡◌, sym, ap, ◌∙◌,
  ◌⊎◌, inl, inr, true, false, ◌&&◌, ◌||◌, none, some, arith, mod-lt,
}
use bez_os.Deque.{Deque, copy_n, close_gap, remove, pop_front}

-- The storage once the part above the gap has moved, and once the first slot has gone to the last.
module _ {A : Type 0} (d : Deque A) (index : ℕ) where
  abbrev upper_moved : ℕ → A
  upper_moved =
      let slot = (d.back + index) % d.capacity in
      copy_n (d.capacity - (slot + 1)) (slot + 1) slot d.entries

  abbrev first_carried : ℕ → A
  first_carried = copy_n 1 0 (d.capacity - 1) upper_moved

module _ {A : Type 0} (d : Deque A) (v : IsValid d) (index i : ℕ) (inside : index < d.count)
    (later : i < d.count - 1) where
  abbrev slot : ℕ
  slot = (d.back + index) % d.capacity

  abbrev source : ℕ
  source = if ltb i index then i else suc i

  -- The span from the gap to the front does not wrap.
  plain :
      slot < d.front
      → (d.back < d.front) ⊎ (slot < d.back)
      → copy_n (d.front - (slot + 1)) (slot + 1) slot d.entries ((d.back + i) % d.capacity)
        ≡ d.entries ((d.back + source) % d.capacity)
  plain h c = ground (
    arith,
    copy_n_lem (d.front - (slot + 1)) (slot + 1) slot ((d.back + i) % d.capacity) d.entries
        (omega arith),
    wrap d.capacity d.back index v.back_in,
    wrap d.capacity d.back d.count v.back_in,
    wrap d.capacity d.back i v.back_in,
    wrap d.capacity d.back source v.back_in,
  )

  abbrev upper : ℕ → A
  upper = upper_moved d index

  abbrev carried : ℕ → A
  carried = first_carried d index

  carried_lem :
      (k : ℕ)
      → 1 ≤ slot
      → carried k ≡ (
          if k == d.capacity - 1
          then d.entries 0
          else if leb slot k && ltb k (d.capacity - 1)
          then d.entries (k + 1)
          else d.entries k)
  unfolding copy_n
  carried_lem k pos =
      let in_storage : slot < d.capacity = mod-lt (d.back + index) v.storage in
      ground (
        arith,
        copy_n_lem (d.capacity - (slot + 1)) (slot + 1) slot k d.entries (omega arith),
        copy_n_lem (d.capacity - (slot + 1)) (slot + 1) slot 0 d.entries (omega arith),
      )

  moved_lem :
      (j : ℕ)
      → 1 ≤ d.front
      → d.front ≤ slot
      → copy_n (d.front - 1) 1 0 carried j ≡ (
          if ltb j (d.front - 1)
          then d.entries (j + 1)
          else if j == d.capacity - 1
          then d.entries 0
          else if leb slot j && ltb j (d.capacity - 1)
          then d.entries (j + 1)
          else d.entries j)
  moved_lem j pos below =
      let in_storage : slot < d.capacity = mod-lt (d.back + index) v.storage in
      ground (
        arith,
        copy_n_lem (d.front - 1) 1 0 j carried (omega arith),
        carried_lem j (omega arith),
        carried_lem (j + 1) (omega arith),
      )

  -- It does: the upper part moves, the first slot goes to the last, and the lower part moves.
  around :
      d.front ≤ d.back
      → d.back ≤ slot
      → 1 ≤ d.front
      → copy_n (d.front - 1) 1 0 carried ((d.back + i) % d.capacity)
        ≡ d.entries ((d.back + source) % d.capacity)
  around h k pos =
      moved_lem ((d.back + i) % d.capacity) pos (omega arith)
      ∙ ground (
        arith,
        wrap d.capacity d.back index v.back_in,
        wrap d.capacity d.back d.count v.back_in,
        wrap d.capacity d.back i v.back_in,
        wrap d.capacity d.back source v.back_in,
      )

module _ {A : Type 0} (d : Deque A) (v : IsValid d) (index : ℕ) (inside : index < d.count) where
  -- What `close_gap` leaves in the slots of the elements that stay.
  abbrev Closes : (ℕ → A) → Type 0
  Closes s =
      (i : ℕ)
      → i < d.count - 1
      → s ((d.back + i) % d.capacity)
        ≡ d.entries ((d.back + (if ltb i index then i else suc i)) % d.capacity)

  close_gap-Closes :
      0 < d.front → (s : ℕ → A) × (close_gap d ((d.back + index) % d.capacity) ≡ some s) × Closes s
  unfolding close_gap
  close_gap-Closes pos =
      let slot = (d.back + index) % d.capacity in
      let gap = wrap d.capacity d.back index v.back_in in
      let end = wrap d.capacity d.back d.count v.back_in in
      elim (Bool-cases (ltb d.back d.front)) [
        | inl straight ↦ (
          copy_n (d.front - (slot + 1)) (slot + 1) slot d.entries,
          ground (arith, gap, end),
          λ i lt. plain d v index i inside lt (ground (arith, gap, end)) (inl (ground arith)),
        )
        | inr turned ↦ elim (Bool-cases (leb d.back slot)) [
          | inl upper_part ↦ (
            copy_n (d.front - 1) 1 0 (first_carried d index),
            ground (arith, gap, end),
            λ i lt. around d v index i inside lt (ground arith) (ground arith) pos,
          )
          | inr lower_part ↦ (
            copy_n (d.front - (slot + 1)) (slot + 1) slot d.entries,
            ground (arith, gap, end),
            λ i lt. plain d v index i inside lt (ground (arith, gap, end)) (inr (ground arith)),
          )
        ]
      ]

  -- With the front in slot 0 the last of the moves copies the slot to itself.
  close_gap-none : d.front ≡ 0 → close_gap d ((d.back + index) % d.capacity) ≡ none
  unfolding close_gap
  close_gap-none z =
      ground
        (arith, wrap d.capacity d.back index v.back_in, wrap d.capacity d.back d.count v.back_in)

  -- With the elements that stay in place, the count falls by the one at the index.
  contents-closed :
      (s : ℕ → A)
      → Closes s
      → window s d.capacity d.back (d.count - 1)
        ≡ erase_at index (window d.entries d.capacity d.back d.count)
  unfolding window
  contents-closed s closes =
      let n = d.count - 1 in
      let f = λ (i : ℕ). d.entries ((d.back + i) % d.capacity) in
      let e : suc n ≡ d.count = omega arith in
      tabulate-ext n _ _ closes
      ∙ sym (erase_at-tabulate n index f (omega arith))
      ∙ ap (λ k. erase_at index (tabulate k f)) e

  some_left : (d.count == 0) ≡ false
  some_left = ground arith

  -- The same deque over the closed storage, and what is left of it.
  module _ (s : ℕ → A) where
    closed-IsValid : IsValid (record d { entries = s })
    closed-IsValid = record {
      storage = v.storage;
      within = v.within;
      back_in = v.back_in;
      front_at = v.front_at;
      addressable = v.addressable;
    }

    pop_front-IsValid : IsValid (pop_front (record d { entries = s })).0
    pop_front-IsValid =
        (rw some_left at (pop_front_lem (record d { entries = s }) closed-IsValid)).2

    contents-pop_front :
        contents (pop_front (record d { entries = s })).0 ≡ window s d.capacity d.back (d.count - 1)
    unfolding pop_front
    contents-pop_front = rw (some_left, pop_front)

  -- `remove` at an index below the count of a valid deque: while the front is not in slot 0 it succeeds,
  -- takes out that element and keeps the others in their order, and the deque stays valid. With the front
  -- in slot 0, as in a full deque that begins there, it asks `std::copy` to copy slot 0 to itself,
  -- which C++ leaves undefined.
  pub remove_lem :
      ((0 < d.front)
        × (d' : Deque A) × (remove d index ≡ some (d', true))
        × (contents d' ≡ erase_at index (contents d))
        × IsValid d')
      ⊎ ((d.front ≡ 0) × (remove d index ≡ none))
  unfolding remove
  remove_lem =
      let asked : (d.count == 0 || ltb d.count index) ≡ false = ground arith in
      elim (Bool-cases (d.front == 0)) [
        | inl first_slot ↦
            let z : d.front ≡ 0 = ground arith in inr (z, rw (asked, close_gap-none z, remove))
        | inr other_slot ↦
            let pos : 0 < d.front = ground arith in
            let (s, e, closes) = close_gap-Closes pos in
            inl (
              pos,
              (pop_front (record d { entries = s })).0,
              rw (asked, e, remove),
              contents-pop_front s ∙ contents-closed s closes,
              pop_front-IsValid s,
            )
      ]

-- The index test lets the count itself through: while the elements do not wrap and none is at the
-- end of the array, that asks `std::copy` for a backwards range, which C++ leaves undefined.
remove_at_count :
    {A : Type 0} (d : Deque A)
    → IsValid d
    → 0 < d.count
    → d.back < d.front
    → remove d d.count ≡ none
unfolding remove close_gap
remove_at_count d v some_in straight = ground (arith, v.front_at)
