-- ===== src/FlatMap/Tests.antt =====
-- A map of two entries and room for three.
use bez_os.Prelude.{◌==◌, if◌then◌else◌, ℕ, ◌≡◌, refl, ◌≢◌, ◌⊎◌, none, some, arith}
use bez_os.FlatMap.{
  FlatMap, insert, remove, find, is_full, not_found, lower_bound, success, shift_up,
}
use bez_os.FlatMap.Entries.{IsValid}
use bez_os.FlatMap.Updates.{find-insert, find-remove}

abbrev two_entries : FlatMap ℕ
two_entries = record {
  keys = λ i. if i == 0 then 5 else 9;
  values = λ i. if i == 0 then 50 else 90;
  capacity = 3;
  count = 2;
}

two_entries-IsValid : IsValid two_entries
two_entries-IsValid = record { rising = λ i j lt inside. ground arith; within = omega arith }

find-insert_example :
    ((insert two_entries 7 70).1 ≡ success)
    × IsValid (insert two_entries 7 70).0
    × ((k : ℕ)
        → find (insert two_entries 7 70).0 k ≡ (if k == 7 then some 70 else find two_entries k))
unfolding is_full
find-insert_example = find-insert two_entries 7 70 two_entries-IsValid

find-remove_example :
    IsValid (remove two_entries 5).0
    × ((k : ℕ) → find (remove two_entries 5).0 k ≡ (if k == 5 then none else find two_entries k))
    × (((find two_entries 5 ≡ none)
          × ((remove two_entries 5).1 ≡ not_found)
          × ((remove two_entries 5).0 ≡ two_entries))
        ⊎ ((find two_entries 5 ≢ none) × ((remove two_entries 5).1 ≡ success)))
find-remove_example = find-remove two_entries 5 two_entries-IsValid

find_found : find two_entries 9 ≡ some 90
unfolding find lower_bound
find_found = refl

find_missing : find two_entries 7 ≡ none
unfolding find lower_bound
find_missing = refl

insert_between : find (insert two_entries 7 70).0 9 ≡ some 90
unfolding find lower_bound insert shift_up
insert_between = refl

insert_over : find (insert two_entries 9 91).0 9 ≡ some 91
unfolding find lower_bound insert shift_up
insert_over = refl
