-- ===== src/RingQueue/Interleaved.antt =====
-- `tryPush` in its atomic steps, for producers that run at the same time.
use bez_os.Circular.{wrap, step_mod}
use bez_os.RingQueue.Fifo.{IsQuiet, contents, try_push_lem, next_place}
use bez_os.Prelude.{
  ◌==◌, if◌then◌else◌, ℕ, zero, suc, ◌+◌, ◌%◌, ◌<◌, ◌≡◌, ap, ◌∙◌, ◌≢◌, ◌⊎◌, inl, inr, Bool, true,
  false, some, [], ◌∷◌, ◌++◌, arith, mod-eq_of_lt, mod-lt, add-zero, append_assoc,
}
use bez_os.Prelude.Store.{write}
use bez_os.RingQueue.{RingQueue, add_u32, try_push, try_pop}

-- Where a producer stands in `tryPush`, with its local variables.
pub data Phase (A : Type 0) : Type 0 where
  -- at the top of the first loop
  entering : A → Phase A
  -- the head is loaded, the consumer's tail is not
  head_loaded : A → ℕ → Phase A
  -- there was room; the exchange of the head comes next
  room_seen : A → ℕ → Phase A
  -- the slot is claimed, and not written yet
  claimed : A → ℕ → Phase A
  -- at the top of the second loop
  written : Phase A
  tail_loaded : ℕ → Phase A
  -- `tryPush` has returned true, or false
  pushed refused : Phase A

module _ {A : Type 0} where
  abbrev next_slot : RingQueue A → ℕ → ℕ
  next_slot q place = add_u32 place 1 % q.slots

  -- One atomic load, exchange or store.
  pub producer_step : RingQueue A → Phase A → RingQueue A × Phase A
  producer_step q (entering value) = (q, head_loaded value q.producer_head)
  producer_step q (head_loaded value head) =
      if next_slot q head == q.consumer_tail then (q, refused) else (q, room_seen value head)
  producer_step q (room_seen value head) =
      if q.producer_head == head
      then (record q { producer_head = next_slot q head }, claimed value head)
      else (q, entering value)
  producer_step q (claimed value head) =
      (record q { storage = write q.storage head value }, written)
  producer_step q written = (q, tail_loaded q.producer_tail)
  producer_step q (tail_loaded tail) =
      if q.producer_tail == tail
      then (record q { producer_tail = next_slot q tail }, pushed)
      else (q, written)
  producer_step q pushed = (q, pushed)
  producer_step q refused = (q, refused)

  -- One producer for a number of steps.
  pub producer_steps : ℕ → RingQueue A × Phase A → RingQueue A × Phase A
  producer_steps zero s = s
  producer_steps (suc n) (q, p) = producer_steps n (producer_step q p)

  abbrev pub outcome : Bool → Phase A
  outcome true = pushed
  outcome false = refused

  -- With nothing between its steps a producer does what `tryPush` as a whole does, in six steps.
  alone_lem :
      (q : RingQueue A) (value : A)
      → let (q', done) = try_push q value in
        producer_steps 6 (q, entering value) ≡ (q', outcome done)
  unfolding producer_steps producer_step try_push
  alone_lem q value = ground arith

  -- A producer that nothing comes between sees the bounded queue.
  alone-queue :
      (q : RingQueue A) (n : ℕ) (value : A)
      → IsQuiet q n
      → let (q', p) = producer_steps 6 (q, entering value) in
        ((n + 1 < q.slots)
          × (p ≡ pushed)
          × IsQuiet q' (n + 1)
          × (contents q' (n + 1) ≡ contents q n ++ (value ∷ [])))
        ⊎ ((n + 1 ≡ q.slots) × (p ≡ refused) × (q' ≡ q))
  alone-queue q n value v = rw (alone_lem q value) (elim (try_push_lem q n value v) [
    | inl (room, fits, quiet, appended) ↦ inl (room, ap outcome fits, quiet, appended)
    | inr (full, fails, same) ↦ inr (full, ap outcome fails, same)
  ])

  -- Two producers enter `tryPush`. The first sees that there is room and is held up before its exchange
  -- of the head; the second runs through, and then the first goes on.
  pub outrun : RingQueue A → A → A → RingQueue A × Phase A × Phase A
  outrun q a b =
      let (q1, first) = producer_steps 2 (q, entering a) in
      let (q2, second) = producer_steps 6 (q1, entering b) in
      let (q3, first_done) = producer_steps 7 (q2, first) in (q3, first_done, second)

  enter_lem :
      (q : RingQueue A) (value : A)
      → next_slot q q.producer_head ≢ q.consumer_tail
      → producer_steps 2 (q, entering value) ≡ (q, room_seen value q.producer_head)
  unfolding producer_steps producer_step
  enter_lem q value room = ground arith

  -- The exchange fails once the head has moved on.
  retry_lem :
      (q : RingQueue A) (value : A) (head : ℕ)
      → q.producer_head ≢ head
      → producer_steps 7 (q, room_seen value head) ≡ producer_steps 6 (q, entering value)
  unfolding producer_steps producer_step
  retry_lem q value head moved = ground arith

  -- The slot behind the producer's head is not the consumer's, and not the head's own.
  next_slot-free :
      (q : RingQueue A) (n : ℕ)
      → IsQuiet q n
      → n + 1 < q.slots
      → (next_slot q q.producer_head ≢ q.consumer_tail)
        × (next_slot q q.producer_head ≢ q.producer_head)
  next_slot-free q n v room =
      let place = (next_place q n v).0 in
      (
        ground (arith, place, v.consumed, wrap q.slots q.consumer_head (n + 1) v.head_in),
        ground (
          arith,
          place,
          v.ahead,
          wrap q.slots q.consumer_head n v.head_in,
          wrap q.slots q.consumer_head (n + 1) v.head_in,
        ),
      )

  producer_head-push :
      (q : RingQueue A) (value : A)
      → next_slot q q.producer_head ≢ q.consumer_tail
      → ((try_push q value).0.producer_head ≡ next_slot q q.producer_head)
        × ((try_push q value).0.slots ≡ q.slots)
        × ((try_push q value).1 ≡ true)
  unfolding try_push
  producer_head-push q value room = ground arith

  -- Two producers enter `tryPush` while no other call is under way and one more element fits, and the
  -- second runs through between the first one's look at the queue and its exchange of the head. The
  -- second appends its value. The exchange fails, the first starts again, and appends its value behind the
  -- other, or is refused, exactly if only one more element fitted.
  pub outrun_lem :
      (q : RingQueue A) (n : ℕ) (a b : A)
      → IsQuiet q n
      → n + 1 < q.slots
      → let (q', first, second) = outrun q a b in
        (second ≡ pushed)
        × (((n + 2 < q.slots)
              × (first ≡ pushed)
              × IsQuiet q' (n + 2)
              × (contents q' (n + 2) ≡ contents q n ++ (b ∷ a ∷ [])))
            ⊎ ((n + 2 ≡ q.slots)
                × (first ≡ refused)
                × IsQuiet q' (n + 1)
                × (contents q' (n + 1) ≡ contents q n ++ (b ∷ []))))
  unfolding outrun
  outrun_lem q n a b v room =
      let (free, moved) = next_slot-free q n v room in
      let (head, slots, fits) = producer_head-push q b free in
      let q2 = (try_push q b).0 in
      let ran = enter_lem q a free in
      let again : producer_steps 7 (q2, room_seen a q.producer_head)
          ≡ producer_steps 6 (q2, entering a) =
        retry_lem q2 a q.producer_head (ground (arith, head, moved)) in
      let two : n + 1 + 1 ≡ n + 2 = omega arith in
      elim (try_push_lem q n b v) [
        | inr (full, _, _) ↦ absurd (omega (arith, full, room))
        | inl (_, _, quiet, appended) ↦
            rw (ran, alone_lem q b, again)
              (
                ap outcome fits,
                elim (alone-queue q2 (n + 1) a quiet) [
                  | inl (more, done, quiet', appended') ↦ inl (
                    omega (arith, more, slots),
                    done,
                    rw two at quiet',
                    (rw two at appended')
                        ∙ ap (λ xs. xs ++ (a ∷ [])) appended
                        ∙ append_assoc (contents q n) (b ∷ []) (a ∷ []),
                  )
                  | inr (full, fails, same) ↦
                      inr (omega (arith, full, slots), fails, rw same quiet, rw same appended)
                ],
              )
      ]

  -- Two producers enter `tryPush` on an empty queue. The first claims its slot and is held up before
  -- it writes; the second runs through.
  pub overtaken : RingQueue A → A → A → RingQueue A × Phase A × Phase A
  unfolding producer_steps
  overtaken q a b =
      let (q1, first) = producer_steps 3 (q, entering a) in
      let (q2, second) = producer_steps 6 (q1, entering b) in (q2, first, second)

  claim_lem :
      (q : RingQueue A) (value : A)
      → next_slot q q.producer_head ≢ q.consumer_tail
      → producer_steps 3 (q, entering value)
        ≡ (record q { producer_head = next_slot q q.producer_head }, claimed value q.producer_head)
  unfolding producer_steps producer_step
  claim_lem q value room = ground arith

  -- The two places behind the consumer of an empty queue of three or more slots are not its own.
  two_free :
      (q : RingQueue A)
      → IsQuiet q 0
      → 2 < q.slots
      → (next_slot q q.producer_head ≢ q.consumer_tail)
        × (next_slot q (next_slot q q.producer_head) ≢ q.consumer_tail)
        × (next_slot q q.producer_tail ≢ q.consumer_head)
        × (q.producer_head ≡ q.consumer_head)
  two_free q v big =
      let start = mod-eq_of_lt v.head_in in
      let one = wrap q.slots q.consumer_head 1 v.head_in (omega arith) in
      let two = step_mod q.slots q.consumer_head 1 in
      let two_at = wrap q.slots q.consumer_head 2 v.head_in (omega arith) in
      let head : q.producer_head ≡ q.consumer_head =
        ground (arith, start, add-zero q.consumer_head) in
      let place : next_slot q q.producer_head ≡ (q.consumer_head + 1) % q.slots = ground arith in
      let place_in = mod-lt (q.consumer_head + 1) {m = q.slots} (omega arith) in
      let further : next_slot q (next_slot q q.producer_head) ≡ (q.consumer_head + 2) % q.slots =
        ground arith in
      (ground arith, ground arith, ground arith, head)

  -- Two producers enter `tryPush` on an empty queue of three or more slots, the first is held up between
  -- claiming its slot and writing it, and the second runs through: then the second reports success, and
  -- the consumer pops the old content of the first one's slot.
  pub overtaken_pops_stale :
      (q : RingQueue A) (a b : A)
      → IsQuiet q 0
      → 2 < q.slots
      → let (q', first, second) = overtaken q a b in
        (first ≡ claimed a q.producer_head)
        × (second ≡ pushed)
        × ((try_pop q').1 ≡ some (q.storage q.producer_head))
  unfolding overtaken try_push try_pop
  overtaken_pops_stale q a b v big =
      let (one, two, three, head) = two_free q v big in
      let q1 = record q { producer_head = next_slot q q.producer_head } in
      rw (claim_lem q a one, alone_lem q1 b, overtaken) (ground (arith, one, two, three, head))
