-- ===== src/RingQueue/Fifo.antt =====
-- Calls that run alone see a bounded first-in first-out queue.
use native.Mathlib.Nat.{add-mod_right}
use bez_os.Prelude.{
  ltb, ◌==◌, Bool-cases, ℕ, zero, suc, ◌+◌, ◌-◌, ◌%◌, ◌^◌, ◌≤◌, ◌<◌, ◌≡◌, refl, ◌⊎◌, inl, inr, true,
  false, none, some, List, [], ◌∷◌, ◌++◌, arith, mod-eq_of_lt, mod-add-mod, mod-lt,
}
use bez_os.RingQueue.{RingQueue, try_push, try_pop, count, create, capacity, reset, add_u32}
use bez_os.Circular.{window, wrap, window-write_last, step_mod, window-suc}
use bez_os.OsStatus.{success}

-- `n` elements wait, and no call is under way.
pub record IsQuiet {A : Type 0} (q : RingQueue A) (n : ℕ) : Type 0 where
  pub room : n < q.slots
  pub word : q.slots < 2 ^ 32
  pub head_in : q.consumer_head < q.slots
  pub consumed : q.consumer_tail ≡ q.consumer_head
  pub produced : q.producer_tail ≡ q.producer_head
  pub ahead : q.producer_head ≡ (q.consumer_head + n) % q.slots

-- Where the producer's head goes next, and when it meets the consumer.
pub next_place :
    {A : Type 0} (q : RingQueue A) (n : ℕ)
    → IsQuiet q n
    → (add_u32 q.producer_head 1 % q.slots ≡ (q.consumer_head + (n + 1)) % q.slots)
      × (add_u32 q.consumer_head 1 % q.slots ≡ (q.consumer_head + 1) % q.slots)
next_place q n v = (
  ground (
    arith,
    step_mod q.slots q.consumer_head n,
    mod-lt (q.consumer_head + n) {m = q.slots} (omega arith),
  ),
  ground arith,
)

meets : (size a n : ℕ) → a < size → n < size → ((a + (n + 1)) % size == a) ≡ (n + 1 == size)
meets size a n ha hn = ground (arith, wrap size a (n + 1) ha)

empty_meets : (size a n : ℕ) → a < size → n < size → (a == (a + n) % size) ≡ (n == 0)
empty_meets size a n ha hn = ground (arith, wrap size a n ha)

module _ {A : Type 0} where
  abbrev pub contents : RingQueue A → ℕ → List A
  contents q n = window q.storage q.slots q.consumer_head n

  -- While no call is under way, `tryPush` appends the value, or refuses it and changes nothing, exactly if
  -- as many elements wait as fit.
  pub try_push_lem :
      (q : RingQueue A) (n : ℕ) (value : A)
      → IsQuiet q n
      → let (q', done) = try_push q value in
        ((n + 1 < q.slots)
          × (done ≡ true)
          × IsQuiet q' (n + 1)
          × (contents q' (n + 1) ≡ contents q n ++ (value ∷ [])))
        ⊎ ((n + 1 ≡ q.slots) × (done ≡ false) × (q' ≡ q))
  unfolding try_push
  try_push_lem q n value v = ground (
    arith,
    next_place q n v,
    meets q.slots q.consumer_head n v.head_in v.room,
    mod-lt (q.consumer_head + (n + 1)) {m = q.slots} (omega arith),
    window-write_last q.storage q.slots q.consumer_head n value v.head_in v.room,
  )

  -- While no call is under way, `tryPop` hands out the oldest element, or nothing, and then changes nothing,
  -- exactly if none waits.
  pub try_pop_lem :
      (q : RingQueue A) (n : ℕ)
      → IsQuiet q n
      → let (q', out) = try_pop q in
        ((m : ℕ) × (x : A) × (n ≡ suc m)
          × (out ≡ some x)
          × IsQuiet q' m
          × (contents q n ≡ x ∷ contents q' m))
        ⊎ ((n ≡ 0) × (out ≡ none) × (q' ≡ q))
  unfolding try_pop
  try_pop_lem q zero v = inr (
    refl,
    ground (arith, empty_meets q.slots q.consumer_head 0 v.head_in v.room),
    ground (arith, empty_meets q.slots q.consumer_head 0 v.head_in v.room),
  )
  try_pop_lem q (suc m) v =
      let apart = empty_meets q.slots q.consumer_head (suc m) v.head_in v.room in
      inl (
        m,
        q.storage q.consumer_head,
        refl,
        ground (arith, apart),
        ground (
          arith,
          apart,
          next_place q (suc m) v,
          mod-lt (q.consumer_head + 1) {m = q.slots} (omega arith),
          mod-add-mod (q.consumer_head + 1) q.slots m,
        ),
        ground (
          arith,
          apart,
          next_place q (suc m) v,
          window-suc q.storage q.slots q.consumer_head m v.head_in,
        ),
      )

  -- While no call is under way, `count` is the number of elements that wait, for at most 2^31 slots.
  count_lem : (q : RingQueue A) (n : ℕ) → IsQuiet q n → q.slots ≤ 2 ^ 31 → count q ≡ n
  unfolding count
  count_lem q n v small =
      let shape = wrap q.slots q.consumer_head n v.head_in (omega arith) in
      elim (Bool-cases (ltb (q.consumer_head + n) q.slots)) [
        | inl straight ↦
            let sum : (add_u32 q.slots q.producer_tail + 2 ^ 32 - q.consumer_tail) % 2 ^ 32
                ≡ n + q.slots =
              ground (arith, shape) in
            rw sum (rw add-mod_right (mod-eq_of_lt v.room))
        | inr turned ↦
            let sum : (add_u32 q.slots q.producer_tail + 2 ^ 32 - q.consumer_tail) % 2 ^ 32 ≡ n =
              ground (arith, shape) in
            rw sum (mod-eq_of_lt v.room)
      ]

  -- A new queue holds nothing and has room for the capacity, which is below the greatest number of 32
  -- bits.
  pub create_lem :
      (n : ℕ) (storage : ℕ → A)
      → 0 < n
      → n + 1 < 2 ^ 32
      → (q : RingQueue A) × (create n (λ _. some storage) ≡ (success, some q))
        × IsQuiet q 0
        × (capacity q ≡ n)
  unfolding create capacity
  create_lem n storage pos fits = (reset storage n, ground arith, ground arith, ground arith)

  -- With the greatest number of 32 bits as its capacity a queue has no slot at all, and its creation is
  -- reported as a success.
  pub create_overflow :
      (n : ℕ) (storage : ℕ → A)
      → n + 1 ≡ 2 ^ 32
      → (q : RingQueue A) × (create n (λ _. some storage) ≡ (success, some q)) × (q.slots ≡ 0)
  unfolding create
  create_overflow n storage e = (reset storage n, ground arith, ground arith)
