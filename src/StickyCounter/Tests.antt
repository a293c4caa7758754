-- ===== src/StickyCounter/Tests.antt =====
-- Counters that hold five.
use bez_os.Prelude.{◌≡◌, refl, true, false, arith}
use bez_os.StickyCounter.{zero_flag, load, increment, decrement_step, subtracting, returned}
use bez_os.StickyCounter.Count.{race_lem, stuck_lem}

race_lem_example :
    let (count1, phase1) = decrement_step 5 (subtracting 5) in
    let (count2, seen) = load count1 in
    let (count3, phase3) = decrement_step count2 phase1 in
    let (count4, phase4) = decrement_step count3 phase3 in
    let (count5, alive) = increment count1 3 in
    (seen ≡ 0)
    × (phase4 ≡ returned true)
    × (count4 ≡ zero_flag)
    × (alive ≡ true)
    × (decrement_step count5 phase1 ≡ (3, returned false))
race_lem_example = race_lem 5 3 (omega arith) (omega arith) (omega arith) (omega arith)

stays_stuck : ((load zero_flag).1 ≡ 0) × ((increment zero_flag 4).1 ≡ false)
unfolding load increment
stays_stuck = (let s = stuck_lem zero_flag 4 (omega arith) (omega arith) in (refl, s.1))
