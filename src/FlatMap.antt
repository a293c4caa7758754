-- ===== src/FlatMap.antt =====
-- sources/kernel/include/std/container/static_flat_map.hpp: StaticFlatMap, a map in two sorted arrays
-- that the caller provides. Keys are integers compared by `std::less`.
pub mod Tests
pub mod Search
pub mod Shift
pub mod Entries
pub mod Updates
use bez_os.Prelude.{
  ltb, leb, ◌==◌, if◌then◌else◌, ℕ, zero, suc, ◌+◌, ◌-◌, ◌*◌, ◌/◌, Bool, ◌&&◌, not, Option, none,
  some,
}
use bez_os.Prelude.Store.{write}
use bez_os.OsStatus.{OsStatus, success, out_of_memory, not_found}

pub record FlatMap (V : Type 0) : Type 0 where
  pub keys : ℕ → ℕ
  pub values : ℕ → V
  pub capacity : ℕ
  pub count : ℕ

-- `computeMaxKeyCount` and `computeRequiredStorage`, for the sizes of a key and of a value.
pub max_key_count : ℕ → ℕ → ℕ → ℕ
max_key_count key_size value_size storage_size = storage_size / (key_size + value_size)

pub required_storage : ℕ → ℕ → ℕ → ℕ
required_storage key_size value_size capacity = capacity * key_size + capacity * value_size

-- `std::lower_bound` and `std::upper_bound` over the keys: the first place in a sorted array whose key
-- is not below, or is above, the one sought. The first argument counts the places left.
unfoldable pub lower_bound : ℕ → ℕ → (ℕ → ℕ) → ℕ → ℕ
lower_bound zero i keys key = i
lower_bound (suc left) i keys key =
    let rest = lower_bound left (i + 1) keys key in if ltb (keys i) key then rest else i

pub upper_bound : ℕ → ℕ → (ℕ → ℕ) → ℕ → ℕ
upper_bound zero i keys key = i
upper_bound (suc left) i keys key =
    let rest = upper_bound left (i + 1) keys key in if ltb key (keys i) then i else rest

-- The loop that makes room: `n` rounds of `a[i] = a[i - 1]`, downwards from `i`.
pub shift_up : {A : Type 0} → ℕ → ℕ → (ℕ → A) → ℕ → A
shift_up zero i a = a
shift_up (suc n) i a = shift_up n (i - 1) (write a i (a (i - 1)))

-- The loop that closes a gap: `n` rounds of `a[i] = a[i + 1]`, upwards from `i`.
pub shift_down : {A : Type 0} → ℕ → ℕ → (ℕ → A) → ℕ → A
shift_down zero i a = a
shift_down (suc n) i a = shift_down n (i + 1) (write a i (a (i + 1)))

module _ {V : Type 0} where
  -- The constructor over storage of a given size; a storage too small for one entry halts the kernel.
  pub create : ℕ → ℕ → ℕ → (ℕ → ℕ) → (ℕ → V) → Option (FlatMap V)
  create key_size value_size size keys values =
      if leb (required_storage key_size value_size 1) size
      then some (record {
        keys = keys;
        values = values;
        capacity = max_key_count key_size value_size size;
        count = 0;
      })
      else none

  unfoldable pub is_empty : FlatMap V → Bool
  is_empty m = m.count == 0

  unfoldable pub is_full : FlatMap V → Bool
  is_full m = m.count == m.capacity

  pub clear : FlatMap V → FlatMap V
  clear m = record m { count = 0 }

  abbrev pub place_of : FlatMap V → ℕ → ℕ
  place_of m key = lower_bound m.count 0 m.keys key

  -- Whether the place found holds the key.
  abbrev pub is_at : FlatMap V → ℕ → ℕ → Bool
  is_at m index key =
      not (index == m.count) && not (ltb key (m.keys index)) && not (ltb (m.keys index) key)

  pub insert : FlatMap V → ℕ → V → FlatMap V × OsStatus
  insert m key value =
      let index = place_of m key in
      if m.count == m.capacity
      then (m, out_of_memory)
      else if is_at m index key
      then (record m { values = write m.values index value }, success)
      else (
        record m {
          keys = write (shift_up (m.count - index) m.count m.keys) index key;
          values = write (shift_up (m.count - index) m.count m.values) index value;
          count = m.count + 1;
        },
        success,
      )

  pub remove : FlatMap V → ℕ → FlatMap V × OsStatus
  remove m key =
      let index = place_of m key in
      if not (is_at m index key) then (m, not_found) else (
        record m {
          keys = shift_down (m.count - 1 - index) index m.keys;
          values = shift_down (m.count - 1 - index) index m.values;
          count = m.count - 1;
        },
        success,
      )

  -- The value that the returned pointer is at, if it is not null.
  pub find : FlatMap V → ℕ → Option V
  find m key =
      let index = place_of m key in if is_at m index key then some (m.values index) else none
