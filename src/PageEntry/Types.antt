-- ===== src/PageEntry/Types.antt =====
-- The memory type of an entry.
use bez_os.PageEntry.{
  number, masked, memory_type, set_entry_flags, bit, max_physical_address, set_pat_entry,
  set_address, PageBuilder, Entry, set_large_memory_type, set_large_pat_entry, large_memory_type,
  MemoryType, PageFlags, get_memory_pat_index,
}
use native.Mathlib.Nat.{zero-mod}
use bez_os.Prelude.{
  ltb, Bool-cases, ℕ, ◌+◌, ◌*◌, ◌/◌, ◌%◌, ◌^◌, ◌≤◌, ◌<◌, ◌≡◌, refl, ap, inl, inr, false, some,
  arith, mod-eq_of_lt,
}

pub bits-number : (n : ℕ) → number (bit 1 n) + 2 * number (bit 2 n) + 4 * number (bit 4 n) ≡ n % 8
bits-number n = ground arith

-- An aligned address that is not above the mask stays as it is under it.
pub masked-eq :
    (pm : PageBuilder) (address : ℕ)
    → address % 4096 ≡ 0
    → address ≤ max_physical_address pm
    → masked pm address ≡ address
unfolding masked max_physical_address
masked-eq pm address aligned fits = elim (Bool-cases (ltb address (2 ^ pm.paddr_bits))) [
  | inl low ↦
      let below : address < 2 ^ pm.paddr_bits = ground arith in
      rw (mod-eq_of_lt below) (omega (arith, aligned))
  | inr high ↦
      let nothing : address ≡ 0 = ground (arith, fits) in
      rw nothing (ap (λ n. n / 4096 * 4096) (zero-mod (2 ^ pm.paddr_bits)))
]

-- The memory type of a 4 KiB entry is the one set, as long as its index has three bits.
pub memory_type-set_pat_entry :
    (e : Entry) (index : ℕ) → memory_type (set_pat_entry e index) ≡ index % 8
unfolding memory_type set_pat_entry
memory_type-set_pat_entry e index = bits-number index

-- The third bit of a large page's memory type is lost: it is bit 12 of the entry, which the address of
-- the page, a multiple of 8192 not above the mask, overwrites.
pub large_memory_type-set_entry_flags :
    (pm : PageBuilder) (e : Entry) (type : MemoryType) (flags : PageFlags) (paddr : ℕ)
    → paddr % 8192 ≡ 0
    → paddr ≤ max_physical_address pm
    → (e' : Entry) × (set_entry_flags pm (set_large_memory_type pm e type) flags paddr ≡ some e')
      × (e'.address ≡ paddr)
      × (large_memory_type e' ≡ get_memory_pat_index pm.layout type % 4)
unfolding set_entry_flags set_address set_large_memory_type set_large_pat_entry large_memory_type
large_memory_type-set_entry_flags pm e type flags paddr aligned fits =
    let under : ltb (max_physical_address pm) paddr ≡ false = ground (arith, fits) in
    let kept = masked-eq pm paddr (omega (arith, aligned)) fits in
    rw under (_, refl, kept, rw kept (ground (arith, aligned)))
