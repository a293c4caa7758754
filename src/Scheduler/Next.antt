-- ===== src/Scheduler/Next.antt =====
-- `takeNextTask`: the oldest task that can run.
use bez_os.Prelude.{
  length, length-append, ℕ, zero, suc, ◌<◌, ◌≡◌, ◌∙◌, none, some, List, [], ◌∷◌, ◌++◌, arith,
}
use bez_os.Prelude.Store.{write_same, write}
use bez_os.Scheduler.{
  Scheduler, RingQueue, take_loop, move_task_to_running, try_pop, idle, done, take_next_task,
  closed,
}
use bez_os.RingQueue.Queued.{Queued, pop-Queued, pop-Queued_nil}
use bez_os.Task.{move_task_to_running, Entry, suspended, running, terminated}

module _ {S : Type 0} where
  abbrev pub AllSuspended : (ℕ → Entry S) → List ℕ → Type 0
  AllSuspended tasks [] = Unit
  AllSuspended tasks (t ∷ ts) = ((tasks t).status ≡ suspended) × AllSuspended tasks ts

  -- The scheduler once the queue has become `queue` and `t` runs.
  abbrev pub took : Scheduler S → RingQueue ℕ → ℕ → Scheduler S
  took s queue t = record s {
    queue = queue;
    tasks = write s.tasks t (record (s.tasks t) { status = running });
  }

  take_loop_suspended :
      (fuel : ℕ) (s : Scheduler S) (u : ℕ) (us : List ℕ)
      → Queued s.queue (u ∷ us)
      → (s.tasks u).status ≡ suspended
      → take_loop (suc fuel) s ≡ take_loop fuel (record s { queue = (try_pop s.queue).0 })
  unfolding take_loop move_task_to_running
  take_loop_suspended fuel s u us v h =
      ground (arith, (pop-Queued s.queue u us v).0, write_same s.tasks u)

  -- A terminated task that is met on the way is closed and dropped.
  take_loop_terminated :
      (fuel : ℕ) (s : Scheduler S) (u : ℕ) (us : List ℕ)
      → Queued s.queue (u ∷ us)
      → (s.tasks u).status ≡ terminated
      → take_loop (suc fuel) s
        ≡ take_loop fuel (record s {
          queue = (try_pop s.queue).0;
          tasks = write s.tasks u (record (s.tasks u) { status = closed });
        })
  unfolding take_loop move_task_to_running
  take_loop_terminated fuel s u us v h = ground (arith, (pop-Queued s.queue u us v).0)

  take_loop_idle :
      (fuel : ℕ) (s : Scheduler S) (t : ℕ) (rest : List ℕ)
      → Queued s.queue (t ∷ rest)
      → (s.tasks t).status ≡ idle
      → take_loop (suc fuel) s ≡ done (took s (try_pop s.queue).0 t, some t)
  unfolding take_loop move_task_to_running
  take_loop_idle fuel s t rest v h = ground (arith, (pop-Queued s.queue t rest v).0)

  take_loop_nil :
      (fuel : ℕ) (s : Scheduler S) → Queued s.queue [] → take_loop (suc fuel) s ≡ done (s, none)
  unfolding take_loop
  take_loop_nil fuel s v = ground (arith, pop-Queued_nil s.queue v)

  take_loop_lem :
      (fuel : ℕ) (s : Scheduler S) (skipped : List ℕ) (t : ℕ) (rest : List ℕ)
      → length skipped < fuel
      → Queued s.queue (skipped ++ (t ∷ rest))
      → AllSuspended s.tasks skipped
      → (s.tasks t).status ≡ idle
      → (queue : RingQueue ℕ) × (take_loop fuel s ≡ done (took s queue t, some t))
        × Queued queue rest
        × (queue.slots ≡ s.queue.slots)
  take_loop_lem zero s skipped t rest lt v a h = absurd (omega arith)
  take_loop_lem (suc fuel) s [] t rest lt v a h =
      let (_, v', e) = pop-Queued s.queue t rest v in
      ((try_pop s.queue).0, take_loop_idle fuel s t rest v h, v', e)
  take_loop_lem (suc fuel) s (u ∷ us) t rest lt v a h =
      let (_, v', e) = pop-Queued s.queue u (us ++ (t ∷ rest)) v in
      let (queue, found, left, e') =
        take_loop_lem fuel (record s { queue = (try_pop s.queue).0 }) us t rest (omega arith) v' a.1
          h in
      (queue, take_loop_suspended fuel s u _ v a.0 ∙ found, left, e' ∙ e)

  -- If the oldest task that is not suspended is idle, `takeNextTask` hands it out as running. The
  -- suspended ones before it leave the queue, the tasks behind it stay, and no other task changes.
  pub take_next_task_lem :
      (s : Scheduler S) (skipped : List ℕ) (t : ℕ) (rest : List ℕ)
      → Queued s.queue (skipped ++ (t ∷ rest))
      → AllSuspended s.tasks skipped
      → (s.tasks t).status ≡ idle
      → (queue : RingQueue ℕ) × (take_next_task s ≡ done (took s queue t, some t))
        × Queued queue rest
        × (queue.slots ≡ s.queue.slots)
  unfolding take_next_task
  take_next_task_lem s skipped t rest v a h =
      take_loop_lem s.queue.slots s skipped t rest (fits v) v a h
    where
      fits : Queued s.queue (skipped ++ (t ∷ rest)) → length skipped < s.queue.slots
      fits v = omega (arith, v.quiet.room, length-append {0} skipped (t ∷ rest))

  AllSuspended-loop :
      (fuel : ℕ) (s : Scheduler S) (skipped : List ℕ)
      → length skipped < fuel
      → Queued s.queue skipped
      → AllSuspended s.tasks skipped
      → (queue : RingQueue ℕ) × (take_loop fuel s ≡ done (record s { queue = queue }, none))
        × Queued queue []
  AllSuspended-loop zero s skipped lt v a = absurd (omega arith)
  AllSuspended-loop (suc fuel) s [] lt v a = (s.queue, take_loop_nil fuel s v, v)
  AllSuspended-loop (suc fuel) s (u ∷ us) lt v a =
      let (_, v', e) = pop-Queued s.queue u us v in
      let (queue, found, left) =
        AllSuspended-loop fuel (record s { queue = (try_pop s.queue).0 }) us (omega arith) v' a.1 in
      (queue, take_loop_suspended fuel s u us v a.0 ∙ found, left)

  -- If every queued task is suspended, or none is queued, `takeNextTask` finds none, and the queue is
  -- empty after it.
  pub take_next_task-none :
      (s : Scheduler S) (skipped : List ℕ)
      → Queued s.queue skipped
      → AllSuspended s.tasks skipped
      → (queue : RingQueue ℕ) × (take_next_task s ≡ done (record s { queue = queue }, none))
        × Queued queue []
  unfolding take_next_task
  take_next_task-none s skipped v a = AllSuspended-loop s.queue.slots s skipped v.quiet.room v a
