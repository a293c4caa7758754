-- ===== src/Uuid.antt =====
-- sources/kernel/include/util/uuid.hpp and sources/kernel/src/util/uuid.cpp: identifiers of sixteen
-- octets and their texts. Arrays of octets and of characters are functions from places to bytes; a
-- parser gives the octets, or `none` where it returns false and leaves its result as it was.
pub mod Digits
pub mod RoundTrip
pub mod Order
pub mod Tests
use bez_os.Prelude.{
  ltb, leb, ◌==◌, if◌then◌else◌, ◌>>=◌, ℕ, zero, suc, ◌+◌, ◌-◌, ◌*◌, ◌/◌, ◌%◌, ◌^◌, Bool, ◌&&◌,
  ◌||◌, not, Option, none, some,
}
use bez_os.Prelude.Store.{write}

abbrev pub Bytes : Type 0
Bytes = ℕ → ℕ

abbrev pub nil : Bytes
nil i = 0

-- `kHex` at a value below 16.
pub hex_digit : ℕ → ℕ
hex_digit d = if ltb d 10 then b'0' + d else b'a' + (d - 10)

pub is_hex : ℕ → Bool
is_hex c = (leb b'0' c && leb c b'9') || (leb b'a' c && leb c b'f') || (leb b'A' c && leb c b'F')

pub from_hex : ℕ → ℕ
from_hex c =
    if leb b'0' c && leb c b'9'
    then c - b'0'
    else if leb b'a' c && leb c b'f'
    then (c - b'a') + 10
    else if leb b'A' c && leb c b'F'
    then (c - b'A') + 10
    else 0

-- `writeOctets`, with the number of octets left and the place of the next.
pub write_octets : ℕ → ℕ → ℕ → Bytes → Bytes → Bytes
unfolding hex_digit
write_octets zero i o octets dst = dst
write_octets (suc left) i o octets dst =
    let high = write dst (i * 2 + o) (hex_digit (octets i / 16)) in
    write_octets left (i + 1) o octets (write high (i * 2 + o + 1) (hex_digit (octets i % 16)))

pub strfuid : Bytes → Bytes → Bytes
unfolding write_octets
strfuid dst octets =
    let a = write (write_octets 4 0 0 octets dst) 8 b'-' in
    let b = write (write_octets 2 4 1 octets a) 13 b'-' in
    let c = write (write_octets 2 6 2 octets b) 18 b'-' in
    let d = write (write_octets 2 8 3 octets c) 23 b'-' in write_octets 6 10 4 octets d

-- `readOctets` from `str + from` to `dst + to`. A shifted nibble leaves the low four bits free, so that
-- joining them is a sum.
pub read_octets : ℕ → ℕ → ℕ → ℕ → Bytes → Bytes → Option Bytes
unfolding is_hex from_hex
read_octets zero i from to str dst = some dst
read_octets (suc left) i from to str dst =
    let c0 = str (from + i * 2) in
    let c1 = str (from + i * 2 + 1) in
    let rest =
      read_octets left (i + 1) from to str (write dst (to + i) (from_hex c0 * 16 + from_hex c1)) in
    if not (is_hex c0) || not (is_hex c1) then none else rest

-- The test for a hyphen between two groups, which hands on the octets so far.
abbrev pub at_hyphen : Bytes → ℕ → Bytes → Option Bytes
at_hyphen str i octets = if not (str i == b'-') then none else some octets

pub parse : Bytes → Option Bytes
unfolding read_octets
parse str =
    read_octets 4 0 0 0 str nil
    >>= at_hyphen str 8
    >>= read_octets 2 0 9 4 str
    >>= at_hyphen str 13
    >>= read_octets 2 0 14 6 str
    >>= at_hyphen str 18
    >>= read_octets 2 0 19 8 str
    >>= at_hyphen str 23
    >>= read_octets 6 0 24 10 str

pub parse_microsoft : Bytes → Option Bytes
unfolding parse
parse_microsoft str =
    if not (str 0 == b'{')
    then none
    else if not (str 37 == b'}')
    then none
    else parse λ i. str (i + 1)

pub parse_hex : Bytes → Option Bytes
unfolding read_octets
parse_hex str = read_octets 16 0 0 0 str nil

pub parse_any : Bytes → Option Bytes
unfolding parse parse_microsoft parse_hex
parse_any str =
    if str 0 == b'{' && str 37 == b'}'
    then parse_microsoft str
    else if str 8 == b'-'
    then parse str
    else parse_hex str

-- `of` a literal of `size` characters, which reads as `parse` does but looks at no brace; where it has
-- `assert(false)` the program does not compile.
pub of_text : ℕ → Bytes → Option Bytes
unfolding parse
of_text size text = parse (if size == 38 + 1 then (λ i. text (i + 1)) else text)

-- The version field, the high nibble of octet 6.
pub version : Bytes → ℕ
version octets = octets 6 / 16

pub set_version : Bytes → ℕ → Bytes
set_version octets v = write octets 6 ((octets 6 % 16 + v * 16) % 256)

-- An octet masked to the bits from place `k` on.
abbrev high_bits : (k octet : ℕ) → ℕ
high_bits k octet = octet / 2 ^ k * 2 ^ k

-- The variant field in the high bits of octet 8, by the values of its leading bits.
pub variant : Bytes → ℕ
variant octets =
    let o = octets 8 in
    if high_bits 7 o == 0
    then o / 2 ^ 4
    else if high_bits 6 o == 0b10000000
    then high_bits 6 o / 2 ^ 6
    else if high_bits 5 o == 0b11000000
    then high_bits 5 o / 2 ^ 4
    else o / 2 ^ 4

pub data Ordering : Type 0 where
  less equal greater : Ordering

-- `operator<=>`, with the number of octets left and the place of the next.
pub compare_from : ℕ → ℕ → Bytes → Bytes → Ordering
compare_from zero i a b = equal
compare_from (suc left) i a b =
    let rest = compare_from left (i + 1) a b in
    if not (a i == b i) then (if ltb (a i) (b i) then less else greater) else rest

pub compare_octets : Bytes → Bytes → Ordering
unfolding compare_from
compare_octets a b = compare_from 16 0 a b
