-- ===== src/Deque/Contents.antt =====
-- A deque is the list of its elements, from the back to the front.
use bez_os.Prelude.{◌+◌, ◌%◌, ◌^◌, ◌≤◌, ◌<◌, ◌≡◌, List}
use bez_os.Circular.{window}
use bez_os.Deque.{Deque}

pub record IsValid {ℓ} {A : Type ℓ} (d : Deque A) : Type 0 where
  pub storage : 0 < d.capacity
  pub within : d.count ≤ d.capacity
  pub back_in : d.back < d.capacity
  pub front_at : d.front ≡ (d.back + d.count) % d.capacity
  pub addressable : d.capacity < 2 ^ 64

module _ {ℓ} {A : Type ℓ} where
  abbrev pub contents : Deque A → List A
  contents d = window d.entries d.capacity d.back d.count
