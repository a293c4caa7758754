-- ===== src/RingQueue.antt =====
-- sources/kernel/include/std/ringbuffer.hpp: AtomicRingQueue, a ring of slots with a head and a tail
-- for the producers and for the consumer. Here each call runs alone: a compare-and-exchange on the
-- value just loaded succeeds, so its loop runs once. `Interleaved` has the steps of calls that run
-- at the same time.
pub mod Tests
pub mod Fifo
pub mod Queued
pub mod Interleaved
use bez_os.Prelude.{
  ◌==◌, if◌then◌else◌, ℕ, ◌+◌, ◌-◌, ◌%◌, ◌^◌, Bool, true, false, Option, none, some,
}
use bez_os.Prelude.Store.{write}
use bez_os.OsStatus.{OsStatus, success, invalid_input, out_of_memory}

pub record RingQueue (A : Type 0) : Type 0 where
  pub storage : ℕ → A
  -- The number of slots, one more than the number of elements that fit.
  pub slots : ℕ
  pub producer_head : ℕ
  pub producer_tail : ℕ
  pub consumer_head : ℕ
  pub consumer_tail : ℕ

-- `uint32_t` sums.
abbrev pub add_u32 : ℕ → ℕ → ℕ
add_u32 a b = (a + b) % 2 ^ 32

module _ {A : Type 0} where
  pub try_push : RingQueue A → A → RingQueue A × Bool
  try_push q value =
      let producer_next = add_u32 q.producer_head 1 % q.slots in
      if producer_next == q.consumer_tail then (q, false) else (
        record q {
          producer_head = producer_next;
          storage = write q.storage q.producer_head value;
          producer_tail = add_u32 q.producer_tail 1 % q.slots;
        },
        true,
      )

  -- What goes through `value`, if anything.
  pub try_pop : RingQueue A → RingQueue A × Option A
  try_pop q =
      let consumer_next = add_u32 q.consumer_head 1 % q.slots in
      if q.consumer_head == q.producer_tail then (q, none) else (
        record q { consumer_head = consumer_next; consumer_tail = consumer_next },
        some (q.storage q.consumer_head),
      )

  pub count : RingQueue A → ℕ
  count q = (add_u32 q.slots q.producer_tail + 2 ^ 32 - q.consumer_tail) % 2 ^ 32 % q.slots

  pub capacity : RingQueue A → ℕ
  capacity q = (q.slots + 2 ^ 32 - 1) % 2 ^ 32

  pub reset : (ℕ → A) → ℕ → RingQueue A
  reset storage capacity = record {
    storage = storage;
    slots = add_u32 capacity 1;
    producer_head = 0;
    producer_tail = 0;
    consumer_head = 0;
    consumer_tail = 0;
  }

  -- The second argument is what `new` gives for that many slots.
  pub create : ℕ → (ℕ → Option (ℕ → A)) → OsStatus × Option (RingQueue A)
  unfolding reset
  create capacity allocate =
      if capacity == 0 then (invalid_input, none) else elim (allocate (add_u32 capacity 1)) [
        | none ↦ (out_of_memory, none)
        | some storage ↦ (success, some (reset storage capacity))
      ]
