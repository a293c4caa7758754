-- ===== src/Uuid/Digits.antt =====
-- Digits there and back, one and many.
use bez_os.Prelude.{
  ltb, leb, if◌then◌else◌, ℕ, zero, suc, ◌+◌, ◌*◌, ◌/◌, ◌%◌, ◌≤◌, ◌<◌, ◌≡◌, refl, true, ◌&&◌, some,
  arith,
}
use bez_os.Prelude.Store.{write}
use bez_os.Uuid.{Bytes, hex_digit, is_hex, from_hex, read_octets}

-- A hexadecimal digit that was written is read back.
pub hex_digit_lem : (d : ℕ) → d < 16 → (is_hex (hex_digit d) ≡ true) × (from_hex (hex_digit d) ≡ d)
unfolding hex_digit is_hex from_hex
hex_digit_lem d h = ground arith

-- What a text holds for the octet at a place.
abbrev pub Shows : Bytes → ℕ → ℕ → Type 0
Shows str at octet =
    (str at ≡ hex_digit (octet / 16)) × (str (at + 1) ≡ hex_digit (octet % 16)) × (octet < 256)

octet_lem :
    (str : Bytes) (at octet : ℕ)
    → Shows str at octet
    → (is_hex (str at) ≡ true)
      × (is_hex (str (at + 1)) ≡ true)
      × (from_hex (str at) * 16 + from_hex (str (at + 1)) ≡ octet)
octet_lem str at octet h =
    let high = hex_digit_lem (octet / 16) (omega arith) in
    let low = hex_digit_lem (octet % 16) (omega arith) in
    rw (h.0, h.1) (high.0, low.0, rw (high.1, low.1) (omega arith))

-- Octets that a text shows are read, and nothing else in the array changes.
pub read_octets_lem :
    (left i from to : ℕ) (str octets dst : Bytes)
    → ((k : ℕ) → i ≤ k → k < i + left → Shows str (from + k * 2) (octets (to + k)))
    → (r : Bytes) × (read_octets left i from to str dst ≡ some r)
      × ((j : ℕ) → r j ≡ (if leb (to + i) j && ltb j (to + (i + left)) then octets j else dst j))
unfolding read_octets
read_octets_lem zero i from to str octets dst h = (dst, refl, λ j. ground arith)
read_octets_lem (suc left) i from to str octets dst h =
    let (hex0, hex1, value) =
      octet_lem str (from + i * 2) (octets (to + i)) (h i (omega arith) (omega arith)) in
    let next =
      write dst (to + i) (from_hex (str (from + i * 2)) * 16 + from_hex (str (from + i * 2 + 1))) in
    let (r, found, holds) =
      read_octets_lem left (i + 1) from to str octets next
        (λ k lo hi. h k (omega arith) (omega arith)) in
    (r, rw (hex0, hex1) found, λ j. ground (arith, holds j, value))
