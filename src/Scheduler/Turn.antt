-- ===== src/Scheduler/Turn.antt =====
-- `reschedule` and `enqueue`: whose turn it is.
use bez_os.Prelude.{
  ltb, Bool-cases, length, length-append, ℕ, ◌+◌, ◌<◌, ◌≡◌, refl, ◌≢◌, ◌⊎◌, inl, inr, none, some,
  List, [], ◌∷◌, ◌++◌, arith,
}
use bez_os.Prelude.Store.{write, write_same}
use bez_os.Scheduler.{
  Scheduler, reschedule, set_current_task, requeue, resumes, save_state, idle, try_push,
  keep_task_running, enqueue, push_new, RingQueue, success, out_of_memory, idles,
}
use bez_os.Scheduler.Next.{took, take_next_task_lem, AllSuspended, take_next_task-none}
use bez_os.RingQueue.Queued.{Queued, push-Queued}
use bez_os.Task.{keep_task_running, Entry, done, move_task_to_idle, TaskStatus, running, suspended}

module _ {S : Type 0} where
  abbrev pub with_status : Entry S → TaskStatus → Entry S
  with_status e st = record e { status = st }

  -- The tasks after a switch from `c`, whose registers are `state`, to `t`.
  abbrev pub switched : (ℕ → Entry S) → ℕ → S → ℕ → ℕ → Entry S
  switched tasks c state t =
      write
        (write (write tasks t (with_status (tasks t) running)) c
          (record (tasks c) { state = state }))
        c (record (tasks c) { state = state; status = idle })

  set_current_running :
      (s : Scheduler S) (c t : ℕ) (ts : List ℕ)
      → s.current ≡ some c
      → c ≢ t
      → (s.tasks c).status ≡ running
      → (s.tasks t).status ≡ running
      → Queued s.queue ts
      → length ts + 1 < s.queue.slots
      → set_current_task s t
        ≡ done (record s {
          queue = (try_push s.queue c).0;
          current = some t;
          tasks = write s.tasks c (record (s.tasks c) { status = idle });
        })
  unfolding set_current_task requeue move_task_to_idle
  set_current_running s c t ts cur ne hc ht v room =
      ground (arith, ((push-Queued s.queue ts c v).0 room).0)

  -- A running task meets its turn's end while another can run: the oldest idle task `t`, behind
  -- suspended ones only, becomes the current one and its registers are loaded. The running task `c` is
  -- saved, becomes idle and goes to the end of the queue.
  pub reschedule_switches :
      (s : Scheduler S) (state : S) (c : ℕ) (skipped : List ℕ) (t : ℕ) (rest : List ℕ)
      → s.current ≡ some c
      → c ≢ t
      → (s.tasks c).status ≡ running
      → Queued s.queue (skipped ++ (t ∷ rest))
      → AllSuspended s.tasks skipped
      → (s.tasks t).status ≡ idle
      → (s' : Scheduler S) × (reschedule s state ≡ done (s', resumes, (s.tasks t).state))
        × Queued s'.queue (rest ++ (c ∷ []))
        × (s'.current ≡ some t)
        × (s'.rescue ≡ s.rescue)
        × (s'.tasks ≡ switched s.tasks c state t)
  unfolding reschedule
  reschedule_switches s state c skipped t rest cur ne hc v a h =
      let (queue, found, left, e) = take_next_task_lem s skipped t rest v a h in
      let s1 = save_state (took s queue t) c state in
      let room : length rest + 1 < queue.slots =
        omega (arith, v.quiet.room, length-append {0} skipped (t ∷ rest), e) in
      let pushed = (push-Queued queue rest c left).0 room in
      let s2 = record s1 {
        queue = (try_push queue c).0;
        current = some t;
        tasks = write s1.tasks c (record (s1.tasks c) { status = idle });
      } in
      let turn : set_current_task s1 t ≡ done s2 =
        set_current_running s1 c t rest cur ne (ground arith) (ground arith) left room in
      (s2, ground (arith, found, turn), pushed.1, refl, refl, ground arith)

  reschedule_alone :
      (s : Scheduler S) (state : S) (skipped : List ℕ)
      → Queued s.queue skipped
      → AllSuspended s.tasks skipped
      → (queue : RingQueue ℕ) × Queued queue []
        × (s.current ≡ none → reschedule s state ≡ done (record s { queue = queue }, idles, state))
        × ((c : ℕ)
            → s.current ≡ some c
            → ((s.tasks c).status ≡ running
                → reschedule s state ≡ done (record s { queue = queue }, resumes, state))
              × ((s.tasks c).status ≡ suspended
                  → reschedule s state
                    ≡ done (
                      record s {
                        queue = queue;
                        current = none;
                        tasks = write s.tasks c (record (s.tasks c) { state = state });
                      },
                      idles,
                      state,
                    )))
  unfolding reschedule keep_task_running
  reschedule_alone s state skipped v a =
      let (queue, found, left) = take_next_task-none s skipped v a in
      (
        queue,
        left,
        λ cur. ground (arith, found),
        λ c cur. (
          λ h. ground (arith, found, write_same s.tasks c),
          λ h. ground (arith, found, write_same s.tasks c),
        ),
      )

  -- A running task goes on, with its registers as they are, if the queue has suspended tasks only, or
  -- none: these leave it.
  reschedule_goes_on :
      (s : Scheduler S) (state : S) (skipped : List ℕ) (c : ℕ)
      → Queued s.queue skipped
      → AllSuspended s.tasks skipped
      → s.current ≡ some c
      → (s.tasks c).status ≡ running
      → (queue : RingQueue ℕ) × Queued queue []
        × (reschedule s state ≡ done (record s { queue = queue }, resumes, state))
  reschedule_goes_on s state skipped c v a cur h =
      let (queue, left, _, found) = reschedule_alone s state skipped v a in
      (queue, left, (found c cur).0 h)

  -- If the queue has suspended tasks only, or none, a current task that was put to sleep is saved and
  -- stops being the current one, and the core idles.
  reschedule_suspends :
      (s : Scheduler S) (state : S) (skipped : List ℕ) (c : ℕ)
      → Queued s.queue skipped
      → AllSuspended s.tasks skipped
      → s.current ≡ some c
      → (s.tasks c).status ≡ suspended
      → (queue : RingQueue ℕ) × Queued queue []
        × (reschedule s state
            ≡ done (
              record s {
                queue = queue;
                current = none;
                tasks = write s.tasks c (record (s.tasks c) { state = state });
              },
              idles,
              state,
            ))
  reschedule_suspends s state skipped c v a cur h =
      let (queue, left, _, found) = reschedule_alone s state skipped v a in
      (queue, left, (found c cur).1 h)

  -- `enqueue` of an idle task, with nobody to rescue, stores its registers and puts it at the end of the
  -- queue; a full queue stays as it is, and the call reports that.
  enqueue_lem :
      (s : Scheduler S) (state : S) (t : ℕ) (ts : List ℕ)
      → s.rescue ≡ none
      → Queued s.queue ts
      → (s.tasks t).status ≡ idle
      → ((length ts + 1 < s.queue.slots)
          × (queue : RingQueue ℕ) × (enqueue s state t
              ≡ done (record (save_state s t state) { queue = queue }, success))
          × Queued queue (ts ++ (t ∷ [])))
        ⊎ ((length ts + 1 ≡ s.queue.slots)
            × (enqueue s state t ≡ done (save_state s t state, out_of_memory)))
  unfolding enqueue push_new
  enqueue_lem s state t ts r v h =
      let p = push-Queued s.queue ts t v in
      elim (Bool-cases (ltb (length ts + 1) s.queue.slots)) [
        | inl room ↦
            let fits = p.0 (ground arith) in
            inl (ground arith, (try_push s.queue t).0, ground (arith, fits.0), fits.1)
        | inr no_room ↦
            let full : length ts + 1 ≡ s.queue.slots = ground (arith, v.quiet.room) in
            inr (full, ground (arith, p.1 full))
      ]

  -- A task that waits to be rescued goes to the queue before the new one. If the queue is full, nothing
  -- changes and the call reports that; if it has one place left, the rescued task takes it, the new one
  -- is refused with its registers stored, and the call reports that too.
  enqueue_rescues :
      (s : Scheduler S) (state : S) (r t : ℕ) (ts : List ℕ)
      → s.rescue ≡ some r
      → Queued s.queue ts
      → (s.tasks t).status ≡ idle
      → ((length ts + 2 < s.queue.slots)
          × (queue : RingQueue ℕ) × (enqueue s state t
              ≡ done (record (save_state s t state) { queue = queue; rescue = none }, success))
          × Queued queue (ts ++ (r ∷ []) ++ (t ∷ [])))
        ⊎ ((length ts + 2 ≡ s.queue.slots)
            × (queue : RingQueue ℕ) × (enqueue s state t
                ≡ done
                    (record (save_state s t state) { queue = queue; rescue = none }, out_of_memory))
            × Queued queue (ts ++ (r ∷ [])))
        ⊎ ((length ts + 1 ≡ s.queue.slots) × (enqueue s state t ≡ done (s, out_of_memory)))
  unfolding enqueue push_new
  enqueue_rescues s state r t ts cur v h =
      let p = push-Queued s.queue ts r v in
      elim (Bool-cases (ltb (length ts + 1) s.queue.slots)) [
        | inl room ↦
            let first = p.0 (ground arith) in
            let longer : length (ts ++ (r ∷ [])) ≡ length ts + 1 = length-append {0} ts (r ∷ []) in
            let next = push-Queued (try_push s.queue r).0 (ts ++ (r ∷ [])) t first.1 in
            elim (Bool-cases (ltb (length ts + 2) s.queue.slots)) [
              | inl two ↦
                  let second = next.0 (ground (arith, longer, first.2)) in
                  inl (
                    ground arith,
                    (try_push (try_push s.queue r).0 t).0,
                    ground (arith, first.0, second.0),
                    second.1,
                  )
              | inr one ↦
                  let full = next.1 (ground (arith, longer, first.2)) in
                  inr (
                    inl (
                      ground arith,
                      (try_push s.queue r).0,
                      ground (arith, first.0, full),
                      first.1,
                    ))
            ]
        | inr no_room ↦
            let full : length ts + 1 ≡ s.queue.slots = ground (arith, v.quiet.room) in
            inr (inr (full, ground (arith, p.1 full)))
      ]
