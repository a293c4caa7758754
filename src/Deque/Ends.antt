-- ===== src/Deque/Ends.antt =====
-- The operations at the two ends, against the list of the elements.
use bez_os.Circular.{
  wrap, window_last, window-suc, window_of_zero, window-write, window, free_slot, step_mod,
}
use bez_os.Prelude.{
  ltb, ◌==◌, if◌then◌else◌, Bool-cases, ℕ, suc, ◌+◌, ◌-◌, ◌%◌, ◌^◌, ◌≤◌, ◌<◌, ◌≡◌, refl, sym, ap,
  ◌∙◌, ◌≢◌, inl, inr, true, false, ◌||◌, none, some, [], ◌∷◌, ◌++◌, arith, add-one, mod-eq_of_lt,
  mod-add-mod, mod-lt, add-zero,
}
use bez_os.Deque.{
  Deque, add_front, write, add_back, pop_back, pop_front, back_element, front_element, before, get,
  try_poll_front, try_poll_back, poll_front, poll_back,
}
use bez_os.Deque.Contents.{IsValid, contents}

-- One step on undoes one step back.
suc-before : (size k : ℕ) → k < size → (before size k + 1) % size ≡ k
unfolding before
suc-before size k h = ground (arith, wrap size (k - 1) 1, wrap size (size - 1) 1)

before-last :
    (size b n : ℕ) → b < size → suc n ≤ size → before size ((b + suc n) % size) ≡ (b + n) % size
unfolding before
before-last size b n hb hn = ground (arith, wrap size b (suc n) hb, wrap size b n hb)

before-ne : (size b n i : ℕ) → b < size → n < size → i < n → (b + i) % size ≢ before size b
unfolding before
before-ne size b n i hb hn hi = ground (arith, wrap size b i hb)

before-lt : (size k : ℕ) → k < size → before size k < size
unfolding before
before-lt size k h = ground arith

module _ {ℓ} {A : Type ℓ} where
  -- A value added at the front of a valid deque comes last in the contents, and the deque stays valid; a
  -- full one refuses it and is unchanged.
  pub add_front_lem :
      (d : Deque A) (e : A)
      → IsValid d
      → let (d', done) = add_front d e in
        if d.count == d.capacity
        then (d' ≡ d) × (done ≡ false)
        else (contents d' ≡ contents d ++ (e ∷ [])) × (done ≡ true) × IsValid d'
  unfolding add_front
  add_front_lem d e v = elim (Bool-cases (d.count == d.capacity)) [
    | inl full ↦ rw full (refl, refl)
    | inr room ↦ rw room (
      rw add-one (
          ground (
            arith,
            window_last (write d.entries d.front e) d.capacity d.back d.count,
            window-write d.entries d.capacity d.back d.count d.front e λ i lt.
                rw v.front_at (free_slot d.capacity d.back d.count i v.back_in (ground arith) lt),
          )),
      refl,
      ground (arith, step_mod d.capacity d.back d.count, mod-lt (d.front + 1) v.storage),
    )
  ]

  -- A value added at the back of a valid deque comes first in the contents, and the deque stays valid; a
  -- full one refuses it and is unchanged.
  add_back_lem :
      (d : Deque A) (e : A)
      → IsValid d
      → let (d', done) = add_back d e in
        if d.count == d.capacity
        then (d' ≡ d) × (done ≡ false)
        else (contents d' ≡ e ∷ contents d) × (done ≡ true) × IsValid d'
  unfolding add_back
  add_back_lem d e v =
      let slot = before d.capacity d.back in
      let on = suc-before d.capacity d.back v.back_in in
      elim (Bool-cases (d.count == d.capacity)) [
        | inl full ↦ rw full (refl, refl)
        | inr room ↦ rw room (
          ground (
            arith,
            on,
            add-one d.count,
            window-suc (write d.entries slot e) d.capacity slot d.count
                (before-lt d.capacity d.back v.back_in),
            window-write d.entries d.capacity d.back d.count slot e
                λ i lt. before-ne d.capacity d.back d.count i v.back_in (ground arith) lt,
          ),
          refl,
          ground (
            arith,
            on,
            step_mod d.capacity slot d.count,
            mod-add-mod (slot + 1) d.capacity d.count,
            before-lt d.capacity d.back v.back_in,
          ),
        )
      ]

  -- From a valid deque that is not empty `popBack` takes the first element, which is what `back` gave, and
  -- the deque stays valid; from an empty one it takes nothing.
  pop_back_lem :
      (d : Deque A)
      → IsValid d
      → let (d', done) = pop_back d in
        if d.count == 0
        then (d' ≡ d) × (done ≡ false) × (contents d ≡ [])
        else (contents d ≡ back_element d ∷ contents d') × (done ≡ true) × IsValid d'
  unfolding pop_back back_element get
  pop_back_lem d v = elim (Bool-cases (d.count == 0)) [
    | inl none_left ↦
        rw none_left (refl, refl, window_of_zero d.entries d.capacity d.back d.count none_left)
    | inr some_left ↦
        let n = d.count - 1 in
        let e : d.count ≡ suc n = ground arith in
        rw some_left (
          ground (
            arith,
            e,
            window-suc d.entries d.capacity d.back n v.back_in,
            add-zero d.back,
            mod-eq_of_lt v.back_in,
          ),
          refl,
          ground (arith, e, mod-lt (d.back + 1) v.storage, mod-add-mod (d.back + 1) d.capacity n),
        )
  ]

  -- The front element stands in the last slot of the contents.
  front_element_lem :
      (d : Deque A)
      → IsValid d
      → (d.count == 0) ≡ false
      → front_element d ≡ d.entries ((d.back + (d.count - 1)) % d.capacity)
  unfolding front_element get
  front_element_lem d v e =
      let index : (d.count + 2 ^ 64 - 1) % 2 ^ 64 ≡ d.count - 1 = ground arith in
      let inside : (d.count == 0 || ltb d.count (d.count - 1)) ≡ false = ground arith in
      rw (index, inside)

  -- From a valid deque that is not empty `popFront` takes the last element, which is what `front` gave, and
  -- the deque stays valid; from an empty one it takes nothing.
  pub pop_front_lem :
      (d : Deque A)
      → IsValid d
      → let (d', done) = pop_front d in
        if d.count == 0
        then (d' ≡ d) × (done ≡ false) × (contents d ≡ [])
        else (contents d ≡ contents d' ++ (front_element d ∷ [])) × (done ≡ true) × IsValid d'
  unfolding pop_front
  pop_front_lem d v = elim (Bool-cases (d.count == 0)) [
    | inl none_left ↦
        rw none_left (refl, refl, window_of_zero d.entries d.capacity d.back d.count none_left)
    | inr some_left ↦
        let n = d.count - 1 in
        let e : d.count ≡ suc n = ground arith in
        rw some_left (
          ap (window d.entries d.capacity d.back) e
              ∙ window_last d.entries d.capacity d.back n
              ∙ ap (λ x. window d.entries d.capacity d.back n ++ (x ∷ []))
                  (sym (front_element_lem d v some_left)),
          refl,
          ground (arith, e, before-last d.capacity d.back n v.back_in),
        )
  ]

  -- Polling an end of a deque that is not empty hands out its element and removes it; from an empty
  -- deque nothing comes and nothing changes.
  pub try_poll_lem :
      (d : Deque A)
      → IsValid d
      → if d.count == 0
        then (try_poll_front d ≡ (d, none)) × (try_poll_back d ≡ (d, none))
        else ((e : A) × ((try_poll_front d).1 ≡ some e)
            × (contents d ≡ contents (try_poll_front d).0 ++ (e ∷ [])))
          × ((e : A) × ((try_poll_back d).1 ≡ some e)
              × (contents d ≡ e ∷ contents (try_poll_back d).0))
  unfolding try_poll_front try_poll_back poll_front poll_back
  try_poll_lem d v = elim (Bool-cases (d.count == 0)) [
    | inl none_left ↦ rw none_left (refl, refl)
    | inr some_left ↦
        let p = rw some_left at (pop_front_lem d v) in
        let q = rw some_left at (pop_back_lem d v) in
        rw some_left ((front_element d, refl, p.0), (back_element d, refl, q.0))
  ]
