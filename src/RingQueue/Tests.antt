-- ===== src/RingQueue/Tests.antt =====
-- A ring of four slots with two elements that wrap, and an empty one.
use bez_os.Circular.{window}
use bez_os.Prelude.{ℕ, suc, ◌+◌, ◌<◌, ◌≡◌, refl, ◌⊎◌, true, false, none, some, [], ◌∷◌, arith}
use bez_os.RingQueue.{RingQueue, try_push, try_pop}
use bez_os.RingQueue.Fifo.{IsQuiet, contents, try_push_lem, try_pop_lem}
use bez_os.RingQueue.Interleaved.{
  overtaken, overtaken_pops_stale, outrun, outrun_lem, claimed, pushed, refused,
}

abbrev two_waiting : RingQueue ℕ
two_waiting = record {
  storage = λ i. 10 + i;
  slots = 4;
  producer_head = 1;
  producer_tail = 1;
  consumer_head = 3;
  consumer_tail = 3;
}

abbrev no_waiting : RingQueue ℕ
no_waiting = record two_waiting { producer_head = 3; producer_tail = 3 }

two_waiting-IsQuiet : IsQuiet two_waiting 2
two_waiting-IsQuiet = record {
  room = omega arith;
  word = omega arith;
  head_in = omega arith;
  consumed = refl;
  produced = refl;
  ahead = refl;
}

no_waiting-IsQuiet : IsQuiet no_waiting 0
no_waiting-IsQuiet = record {
  room = omega arith;
  word = omega arith;
  head_in = omega arith;
  consumed = refl;
  produced = refl;
  ahead = refl;
}

try_push_lem_example :
    ((2 + 1 < 4)
      × ((try_push two_waiting 7).1 ≡ true)
      × IsQuiet (try_push two_waiting 7).0 3
      × (contents (try_push two_waiting 7).0 3 ≡ 13 ∷ 10 ∷ 7 ∷ []))
    ⊎ ((2 + 1 ≡ two_waiting.slots)
        × ((try_push two_waiting 7).1 ≡ false)
        × ((try_push two_waiting 7).0 ≡ two_waiting))
unfolding window
try_push_lem_example = try_push_lem two_waiting 2 7 two_waiting-IsQuiet

try_pop_lem_example :
    ((m : ℕ) × (x : ℕ) × (two_waiting.producer_head + 1 ≡ suc m)
      × ((try_pop two_waiting).1 ≡ some x)
      × IsQuiet (try_pop two_waiting).0 m
      × (13 ∷ 10 ∷ [] ≡ x ∷ contents (try_pop two_waiting).0 m))
    ⊎ ((two_waiting.producer_head + 1 ≡ 0)
        × ((try_pop two_waiting).1 ≡ none)
        × ((try_pop two_waiting).0 ≡ two_waiting))
unfolding window
try_pop_lem_example = try_pop_lem two_waiting 2 two_waiting-IsQuiet

-- One element waits in the second slot; two more fit.
abbrev one_waiting : RingQueue ℕ
one_waiting = record two_waiting {
  producer_head = 2;
  producer_tail = 2;
  consumer_head = 1;
  consumer_tail = 1;
}

one_waiting-IsQuiet : IsQuiet one_waiting 1
one_waiting-IsQuiet = record {
  room = omega arith;
  word = omega arith;
  head_in = omega arith;
  consumed = refl;
  produced = refl;
  ahead = refl;
}

outrun_lem_example :
    ((outrun one_waiting 7 8).2 ≡ pushed)
    × (((1 + 2 < 4)
          × ((outrun one_waiting 7 8).1 ≡ pushed)
          × IsQuiet (outrun one_waiting 7 8).0 3
          × (contents (outrun one_waiting 7 8).0 3 ≡ 11 ∷ 8 ∷ 7 ∷ []))
        ⊎ ((1 + 2 ≡ one_waiting.slots)
            × ((outrun one_waiting 7 8).1 ≡ refused)
            × IsQuiet (outrun one_waiting 7 8).0 2
            × (contents (outrun one_waiting 7 8).0 2 ≡ 11 ∷ 8 ∷ [])))
unfolding window
outrun_lem_example = outrun_lem one_waiting 1 7 8 one_waiting-IsQuiet (omega arith)

overtaken_pops_stale_example :
    ((overtaken no_waiting 7 8).1 ≡ claimed 7 3)
    × ((overtaken no_waiting 7 8).2 ≡ pushed)
    × ((try_pop (overtaken no_waiting 7 8).0).1 ≡ some 13)
overtaken_pops_stale_example = overtaken_pops_stale no_waiting 7 8 no_waiting-IsQuiet (omega arith)

full_refuses : try_push (try_push two_waiting 7).0 8 ≡ ((try_push two_waiting 7).0, false)
unfolding try_push
full_refuses = refl
