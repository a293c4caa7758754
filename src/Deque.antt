-- ===== src/Deque.antt =====
-- sources/kernel/include/std/fixed_deque.hpp: FixedSizeDeque, a double-ended queue in an array that
-- the caller provides. `back` is the slot of the first element, `front` the slot after the last.
-- Behaviour that C++ leaves undefined is `none`.
pub mod Tests
pub mod Contents
pub mod Ends
pub mod Erase
pub mod Remove
use bez_os.Prelude.{
  ltb, leb, ◌==◌, if◌then◌else◌, ◌>>=◌, ℕ, zero, suc, ◌+◌, ◌-◌, ◌%◌, ◌^◌, Bool, true, false, ◌&&◌,
  ◌||◌, Option, none, some,
}
use bez_os.Prelude.Store.{write}

pub record Deque {ℓ} (A : Type ℓ) : Type ℓ where
  pub count : ℕ
  pub front : ℕ
  pub back : ℕ
  pub entries : ℕ → A
  pub capacity : ℕ

-- `std::copy` of n elements, in rising order.
pub copy_n {ℓ} : {A : Type ℓ} → ℕ → ℕ → ℕ → (ℕ → A) → ℕ → A
copy_n zero src dest s = s
copy_n (suc n) src dest s = copy_n n (src + 1) (dest + 1) (write s dest (s src))

-- `std::copy` of [first, last), undefined if the range is backwards or has the destination in it.
abbrev pub copy {ℓ} : {A : Type ℓ} → ℕ → ℕ → ℕ → (ℕ → A) → Option (ℕ → A)
copy first last dest s =
    if ltb last first || (leb first dest && ltb dest last)
    then none
    else some (copy_n (last - first) first dest s)

-- One slot back, going round.
pub before : ℕ → ℕ → ℕ
before capacity k = if k == 0 then capacity - 1 else k - 1

module _ {ℓ} {A : Type ℓ} where
  pub create : (ℕ → A) → ℕ → Deque A
  create entries size = record {
    count = 0;
    front = 0;
    back = 0;
    entries = entries;
    capacity = size;
  }

  pub add_front : Deque A → A → Deque A × Bool
  add_front d e = if d.count == d.capacity then (d, false) else (
    record d {
      entries = write d.entries d.front e;
      front = (d.front + 1) % d.capacity;
      count = d.count + 1;
    },
    true,
  )

  pub pop_front : Deque A → Deque A × Bool
  pop_front d =
      if d.count == 0
      then (d, false)
      else (record d { count = d.count - 1; front = before d.capacity d.front }, true)

  pub add_back : Deque A → A → Deque A × Bool
  add_back d e =
      if d.count == d.capacity
      then (d, false)
      else let slot = before d.capacity d.back in
        (record d { back = slot; entries = write d.entries slot e; count = d.count + 1 }, true)

  pub pop_back : Deque A → Deque A × Bool
  pop_back d =
      if d.count == 0
      then (d, false)
      else (record d { count = d.count - 1; back = (d.back + 1) % d.capacity }, true)

  -- The reference that `get` returns, read.
  pub get : Deque A → ℕ → A
  get d index =
      if d.count == 0 || ltb d.count index
      then d.entries 0
      else d.entries ((d.back + index) % d.capacity)

  -- The moves that close the gap at slot `index`.
  pub close_gap : Deque A → ℕ → Option (ℕ → A)
  close_gap d index =
      if ltb d.back d.front
      then copy (index + 1) d.front index d.entries
      else if leb d.back index
      then copy (index + 1) d.capacity index d.entries
        >>= copy 0 1 (d.capacity - 1)
        >>= copy (if ltb d.front 1 then d.front else 1) (if ltb d.front 1 then 1 else d.front) 0
      else copy (index + 1) d.front index d.entries

  pub remove : Deque A → ℕ → Option (Deque A × Bool)
  remove d index =
      if d.count == 0 || ltb d.count index
      then some (d, false)
      else elim (close_gap d ((d.back + index) % d.capacity)) [
        | none ↦ none
        | some s ↦ some ((pop_front (record d { entries = s })).0, true)
      ]

  -- `front` is `*--end()`: the index below a count of 0 wraps, and `get` is then asked past the end.
  pub front_element : Deque A → A
  unfolding get
  front_element d = get d ((d.count + 2 ^ 64 - 1) % 2 ^ 64)

  -- `back` is `*begin()`.
  pub back_element : Deque A → A
  unfolding get
  back_element d = get d 0

  pub poll_front : Deque A → Deque A × A
  poll_front d = ((pop_front d).0, front_element d)

  pub poll_back : Deque A → Deque A × A
  poll_back d = ((pop_back d).0, back_element d)

  -- What goes through the reference, if anything.
  pub try_poll_front : Deque A → Deque A × Option A
  try_poll_front d = if d.count == 0 then (d, none) else let (d', e) = poll_front d in (d', some e)

  pub try_poll_back : Deque A → Deque A × Option A
  try_poll_back d = if d.count == 0 then (d, none) else let (d', e) = poll_back d in (d', some e)
