-- ===== src/LookupTable/Counts.antt =====
-- The counts of the page tables in use.
use bez_os.FlatMap.{place_of, is_at}
use bez_os.LookupTable.{retain, find, LookupTable, at_found, find_place, MapEntry, write, release}
use bez_os.FlatMap
use bez_os.LookupTable.{find}
use bez_os.Prelude.{
  ltb, ◌==◌, if◌then◌else◌, Bool-cases, ℕ, ◌+◌, ◌-◌, ◌%◌, ◌^◌, ◌≡◌, refl, inl, inr, arith,
}

-- Values that keep where the pools are keep what `find` finds.
find-values :
    (cache : LookupTable) (values : ℕ → MapEntry) (paddr : ℕ)
    → ((i : ℕ)
        → ((values i).vaddr ≡ (cache.values i).vaddr) × ((values i).count ≡ (cache.values i).count))
    → find (record cache { values = values }) paddr ≡ find cache paddr
unfolding find find_place FlatMap.is_empty
find-values cache values paddr same =
    let here = same (find_place cache paddr) in rw (here.0, here.1) refl

at_found-find :
    (cache : LookupTable) (paddr key : ℕ) (change : MapEntry → MapEntry)
    → ((e : MapEntry) → ((change e).vaddr ≡ e.vaddr) × ((change e).count ≡ e.count))
    → find (at_found cache key change) paddr ≡ find cache paddr
unfolding at_found
at_found-find cache paddr key change same =
    let place = place_of cache key in
    elim (Bool-cases (is_at cache place key)) [
      | inl hit ↦ rw hit (
          find-values cache (write cache.values place (change (cache.values place))) paddr (λ i.
            elim (Bool-cases (i == place)) [
              | inl there ↦
                  let at : i ≡ place = ground arith in rw (there, at) (same (cache.values place))
              | inr elsewhere ↦ rw elsewhere (refl, refl)
            ]))
      | inr miss ↦ rw miss refl
    ]

-- Counting the use of a page table does not change what is found.
pub find-retain :
    (cache : LookupTable) (paddr key : ℕ) → find (retain cache key) paddr ≡ find cache paddr
unfolding retain
find-retain cache paddr key =
    at_found-find cache paddr key (λ it. record it { refs = (it.refs + 1) % 2 ^ 32 })
      (λ e. (refl, refl))

pub find-release :
    (cache : LookupTable) (paddr key : ℕ) → find (release cache key) paddr ≡ find cache paddr
unfolding release
find-release cache paddr key =
    at_found-find cache paddr key
      (λ it. if ltb 0 it.refs then record it { refs = it.refs - 1 } else it)
      λ e. elim (Bool-cases (ltb 0 e.refs)) [
        | inl used ↦ rw used (refl, refl)
        | inr unused ↦ rw unused (refl, refl)
      ]
