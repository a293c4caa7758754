-- ===== src/RingQueue/Queued.antt =====
-- The list of the elements that wait in a ring, which is all that its clients reason with.
use bez_os.Prelude.{
  length, length-append, suc, ◌+◌, ◌<◌, ◌≡◌, sym, ap, ◌∙◌, inl, inr, true, false, none, some, List,
  [], ◌∷◌, ◌++◌, arith,
}
use bez_os.RingQueue.{RingQueue, try_push, try_pop}
use bez_os.RingQueue.Fifo.{IsQuiet, contents, try_push_lem, try_pop_lem}

module _ {A : Type 0} where
  pub record Queued (q : RingQueue A) (xs : List A) : Type 0 where
    pub quiet : IsQuiet q (length xs)
    pub waiting : contents q (length xs) ≡ xs

  slots-push : (q : RingQueue A) (value : A) → (try_push q value).0.slots ≡ q.slots
  unfolding try_push
  slots-push q value = ground arith

  slots-pop : (q : RingQueue A) → (try_pop q).0.slots ≡ q.slots
  unfolding try_pop
  slots-pop q = ground arith

  -- A value is appended while there is room, and otherwise refused with the ring unchanged.
  pub push-Queued :
      (q : RingQueue A) (xs : List A) (value : A)
      → Queued q xs
      → (length xs + 1 < q.slots
          → ((try_push q value).1 ≡ true)
            × Queued (try_push q value).0 (xs ++ (value ∷ []))
            × ((try_push q value).0.slots ≡ q.slots))
        × (length xs + 1 ≡ q.slots → try_push q value ≡ (q, false))
  push-Queued q xs value v = elim (try_push_lem q (length xs) value v.quiet) [
    | inl p ↦ (
      λ room. (
        p.1,
        (let e : length (xs ++ (value ∷ [])) ≡ length xs + 1 =
              omega (arith, length-append {0} xs (value ∷ [])) in
            record {
              quiet = rw e p.2;
              waiting = rw e (p.3 ∙ ap (λ ys. ys ++ (value ∷ [])) v.waiting);
            }),
        slots-push q value,
      ),
      λ full. absurd (omega (arith, p.0)),
    )
    | inr p ↦ (λ room. absurd (omega (arith, p.0)), λ full. ground (arith, p.1, p.2))
  ]

  -- The oldest element comes out.
  pub pop-Queued :
      (q : RingQueue A) (x : A) (xs : List A)
      → Queued q (x ∷ xs)
      → ((try_pop q).1 ≡ some x) × Queued (try_pop q).0 xs × ((try_pop q).0.slots ≡ q.slots)
  pop-Queued q x xs v = elim (try_pop_lem q (suc (length xs)) v.quiet) [
    | inl (m, y, e, out, quiet, c) ↦
        let same : length xs ≡ m = omega arith in
        let both : y ∷ contents (try_pop q).0 m ≡ x ∷ xs = sym c ∙ v.waiting in
        (
          out ∙ ap some (ground arith),
          record { quiet = rw same quiet; waiting = rw same (ground arith) },
          slots-pop q,
        )
    | inr (e, _, _) ↦ absurd (omega arith)
  ]

  -- Nothing comes out of an empty ring.
  pub pop-Queued_nil : (q : RingQueue A) → Queued q [] → try_pop q ≡ (q, none)
  pop-Queued_nil q v = elim (try_pop_lem q 0 v.quiet) [
    | inl (m, y, e, _, _, _) ↦ absurd (omega arith)
    | inr p ↦ ground (arith, p.1, p.2)
  ]
