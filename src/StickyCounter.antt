-- ===== src/StickyCounter.antt =====
-- sources/kernel/include/std/detail/sticky_counter.hpp: StickyCounter of uint32_t, a counter that stays
-- at zero once it has come down to it. A call that makes several atomic accesses is a sequence of steps,
-- so that other calls can come between them. The state is `mCount` alone, a word.
pub mod Count
pub mod Tests
use bez_os.Prelude.{leb, ◌==◌, if◌then◌else◌, ℕ, ◌+◌, ◌-◌, ◌/◌, ◌%◌, ◌^◌, Bool, true, false, not}

-- kZeroFlag and kPendingZeroFlag, the two highest bits.
abbrev pub zero_flag : ℕ
zero_flag = 2 ^ 31

abbrev pub pending_zero_flag : ℕ
pending_zero_flag = 2 ^ 30

abbrev pub has_zero_flag : ℕ → Bool
has_zero_flag value = leb zero_flag value

abbrev pub has_pending_zero_flag : ℕ → Bool
has_pending_zero_flag value = value / pending_zero_flag % 2 == 1

-- `load`, with nothing between its two accesses: the first to see a zero sets both flags.
unfoldable pub load : ℕ → ℕ × ℕ
load count =
    if count == 0
    then (zero_flag + pending_zero_flag, 0)
    else (count, (if has_zero_flag count then 0 else count))

unfoldable pub increment : ℕ → ℕ → ℕ × Bool
increment count delta = ((count + delta) % 2 ^ 32, not (has_zero_flag count))

-- Where a call of `decrement` stands.
pub data Phase : Type 0 where
  -- before the subtraction
  subtracting : ℕ → Phase
  -- before the exchange of zero for the flag
  marking : Phase
  -- before the exchange that takes over from a load
  taking_over : Phase
  returned : Bool → Phase

unfoldable pub decrement_step : ℕ → Phase → ℕ × Phase
decrement_step count (subtracting delta) =
    ((count + 2 ^ 32 - delta) % 2 ^ 32, (if count == delta then marking else returned false))
decrement_step count marking =
    if count == 0
    then (zero_flag, returned true)
    else (count, (if has_pending_zero_flag count then taking_over else returned false))
decrement_step count taking_over = (zero_flag, returned (has_pending_zero_flag count))
decrement_step count (returned result) = (count, returned result)

-- `decrement` with nothing between its accesses, which are at most three.
unfoldable pub decrement : ℕ → ℕ → ℕ × Phase
unfolding decrement_step
decrement count delta =
    let (count1, phase1) = decrement_step count (subtracting delta) in
    let (count2, phase2) = decrement_step count1 phase1 in decrement_step count2 phase2
