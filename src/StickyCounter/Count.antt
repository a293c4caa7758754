-- ===== src/StickyCounter/Count.antt =====
-- The counter as a count that is live, or zero for good.
use bez_os.Prelude.{◌==◌, if◌then◌else◌, ℕ, ◌+◌, ◌-◌, ◌^◌, ◌≤◌, ◌<◌, ◌≡◌, true, false, arith}
use bez_os.StickyCounter.{
  zero_flag, pending_zero_flag, load, increment, decrement, decrement_step, subtracting, returned,
}

-- While the count is above zero and below the flags, `load` gives it, `increment` adds to it and reports
-- that, and `decrement` takes off what is there: it reports true exactly if nothing is left, and then the
-- counter is stuck.
live_lem :
    (count added taken : ℕ)
    → 0 < count
    → count + added < pending_zero_flag
    → taken ≤ count
    → 0 < taken
    → (load count ≡ (count, count))
      × (increment count added ≡ (count + added, true))
      × (decrement count taken ≡ (
          if count == taken then (zero_flag, returned true) else (count - taken, returned false)))
unfolding load increment decrement decrement_step
live_lem count added taken h room enough some_taken = (ground arith, ground arith, ground arith)

-- A stuck counter loads as zero and refuses increments, and it is still stuck after one that does not wrap.
pub stuck_lem :
    (count added : ℕ)
    → zero_flag ≤ count
    → count + added < 2 ^ 32
    → (load count ≡ (count, 0))
      × ((increment count added).1 ≡ false)
      × (zero_flag ≤ (increment count added).0)
unfolding load increment
stuck_lem count added stuck room = (ground arith, ground arith, ground arith)

-- A call of `decrement` takes off all that is left of a count below the flags. If a `load` comes before it has set the flag, the load
-- gives zero, the decrement takes over from it and reports true, and the counter is stuck. If an
-- `increment` comes instead, it succeeds, the decrement reports false, and the counter lives on.
pub race_lem :
    (count added : ℕ)
    → 0 < count
    → count < pending_zero_flag
    → 0 < added
    → added < pending_zero_flag
    → let (count1, phase1) = decrement_step count (subtracting count) in
      let (count2, seen) = load count1 in
      let (count3, phase3) = decrement_step count2 phase1 in
      let (count4, phase4) = decrement_step count3 phase3 in
      let (count5, alive) = increment count1 added in
      (seen ≡ 0)
      × (phase4 ≡ returned true)
      × (count4 ≡ zero_flag)
      × (alive ≡ true)
      × (decrement_step count5 phase1 ≡ (added, returned false))
unfolding load increment decrement_step
race_lem count added h small some_added few = ground arith

-- A decrement of a counter that has come down to zero reports false, and makes it count again.
pub decrement_unsticks :
    (count taken : ℕ)
    → 0 < count
    → count < pending_zero_flag
    → 0 < taken
    → taken < pending_zero_flag
    → let (stuck, phase) = decrement count count in
      let (count2, phase2) = decrement stuck taken in
      (phase ≡ returned true)
      × ((load stuck).1 ≡ 0)
      × (phase2 ≡ returned false)
      × ((load count2).1 ≡ zero_flag - taken)
unfolding load decrement decrement_step
decrement_unsticks count taken h small some_taken few = ground arith
