-- ===== src/Deque/Tests.antt =====
-- A deque of three elements whose first stands in the last slot.
use bez_os.Circular.{window}
use bez_os.Prelude.{ℕ, ◌+◌, ◌<◌, ◌≡◌, refl, ◌⊎◌, true, none, some, [], ◌∷◌, arith}
use bez_os.Deque.{Deque, remove, get, before}
use bez_os.Deque.Contents.{IsValid, contents}
use bez_os.Deque.Erase.{erase_at}
use bez_os.Deque.Remove.{remove_lem}

abbrev turned : Deque ℕ
turned = record { count = 3; front = 2; back = 4; entries = λ i. 10 + i; capacity = 5 }

abbrev straight : Deque ℕ
straight = record { count = 2; front = 2; back = 0; entries = λ i. 10 + i; capacity = 5 }

turned-IsValid : IsValid turned
turned-IsValid = record {
  storage = omega arith;
  within = omega arith;
  back_in = omega arith;
  front_at = refl;
  addressable = omega arith;
}

straight-IsValid : IsValid straight
straight-IsValid = record {
  storage = omega arith;
  within = omega arith;
  back_in = omega arith;
  front_at = refl;
  addressable = omega arith;
}

remove_lem_example :
    ((0 < turned.front)
      × (d : Deque ℕ) × (remove turned 1 ≡ some (d, true))
      × (contents d ≡ 14 ∷ 11 ∷ [])
      × IsValid d)
    ⊎ ((turned.front ≡ 0) × (remove turned 1 ≡ none))
unfolding window erase_at
remove_lem_example = remove_lem turned turned-IsValid 1 (omega arith)

get_wraps : get turned 2 ≡ 11
unfolding get
get_wraps = refl

before_wraps : before 5 0 ≡ 4
unfolding before
before_wraps = refl
