-- ===== src/Uuid/Tests.antt =====
-- The identifier whose octets count from 16 upwards.
use bez_os.Prelude.{ltb, ◌==◌, if◌then◌else◌, ℕ, ◌+◌, ◌-◌, ◌<◌, ◌≡◌, refl, false, none, some, arith}
use bez_os.Uuid.{
  Bytes, strfuid, parse, variant, compare_octets, compare_from, less, write_octets, read_octets,
  is_hex,
}
use bez_os.Uuid.RoundTrip.{parse-strfuid}
use bez_os.Uuid.Order.{Says, compare_octets_lem}

abbrev counting : Bytes
counting i = if ltb i 16 then 16 + i else 0

abbrev blank : Bytes
blank i = 0

abbrev in_braces : Bytes
in_braces i = if i == 0 then b'{' else if i == 37 then b'}' else strfuid blank counting (i - 1)

in_braces-inner : (i : ℕ) → i < 36 → in_braces (i + 1) ≡ strfuid blank counting i
in_braces-inner i lt =
    let back : i + 1 - 1 ≡ i = omega arith in
    let first : (i + 1 == 0) ≡ false = ground arith in
    let last : (i + 1 == 37) ≡ false = ground arith in rw (first, last, back)

parse-strfuid_example :
    (r : Bytes) × (parse (strfuid blank counting) ≡ some r) × ((i : ℕ) → i < 16 → r i ≡ counting i)
parse-strfuid_example = parse-strfuid blank counting (λ i lt. ground arith)

-- The same octets but for the one at place 3.
abbrev other_fourth : Bytes
other_fourth i = if i == 3 then 200 else counting i

compare_octets_lem_example : Says counting other_fourth 0 16 (compare_octets counting other_fourth)
compare_octets_lem_example = compare_octets_lem counting other_fourth

fourth_decides : compare_octets counting other_fourth ≡ less
unfolding compare_octets compare_from
fourth_decides = refl

-- A Microsoft identifier, by its three leading bits.
microsoft : variant (λ i. 0b11000101) ≡ 12
unfolding variant
microsoft = refl

printed_hyphen : strfuid blank counting 13 ≡ b'-'
unfolding strfuid write_octets
printed_hyphen = refl

no_hyphen : parse blank ≡ none
unfolding parse read_octets is_hex
no_hyphen = refl
