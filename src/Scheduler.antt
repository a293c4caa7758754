-- ===== src/Scheduler.antt =====
-- sources/kernel/src/task/scheduler_queue.cpp: the SchedulerQueue of one core, over its ring of tasks.
-- A task is a number, and `tasks` is the memory that the entries stand in.
pub mod Tests
pub mod Next
pub mod Turn
pub mod Rounds
pub mod Wakeup
use bez_os.Prelude.{
  ◌==◌, if◌then◌else◌, ℕ, zero, suc, ◌+◌, Bool, true, false, not, Option, none, some, List, [], ◌∷◌,
  map,
}
use bez_os.Prelude.Store.{write}
use bez_os.RingQueue.{RingQueue, try_push, try_pop}
use bez_os.Task.{
  ◌>>=◌, ◌>>◌, wakes, discards, sleeps, Entry, Outcome, done, spinning, move_task_to_running,
  assert, keep_task_running, wake_if_timeout, ◌>>◌, WakeResult, is_status, closed, idle,
  move_task_to_idle,
}
use bez_os.OsStatus.{OsStatus, success, out_of_memory}
use bez_os.RingQueue
use mathlib.Core.Option

pub data ScheduleResult : Type 0 where
  -- eResume: run the task; eIdle: no task can run
  resumes idles : ScheduleResult

pub record Scheduler (S : Type 0) : Type 0 where
  pub queue : RingQueue ℕ
  pub current : Option ℕ
  pub rescue : Option ℕ
  pub sleeping : List ℕ
  pub tasks : ℕ → Entry S

-- Equality of pointers that may be null.
abbrev pub is_task : Option ℕ → ℕ → Bool
is_task none t = false
is_task (some c) t = c == t

abbrev pub is_null {ℓ} : {A : Type ℓ} → Option A → Bool
is_null none = true
is_null (some a) = false

module _ {S : Type 0} where
  -- The loop over `mQueue.tryPop`, on fuel.
  pub take_loop : ℕ → Scheduler S → Outcome (Scheduler S × Option ℕ)
  take_loop zero s = spinning
  take_loop (suc fuel) s =
      let (queue, popped) = try_pop s.queue in
      elim popped [
        | none ↦ done (s, none)
        | some t ↦ move_task_to_running (s.tasks t) >>= λ (r : Entry S × Bool).
            let s' = record s { queue = queue; tasks = write s.tasks t r.0 } in
            let rest = take_loop fuel s' in if r.1 then done (s', some t) else rest
      ]

  -- A round for each slot of the ring is enough.
  pub take_next_task : Scheduler S → Outcome (Scheduler S × Option ℕ)
  take_next_task s = take_loop s.queue.slots s

  -- A task that the queue refuses becomes the rescue task, of which there must be none.
  pub requeue : Scheduler S → ℕ → Outcome (Scheduler S)
  requeue s t =
      let (queue, fits) = try_push s.queue t in
      if fits
      then done (record s { queue = queue })
      else assert (is_null s.rescue) >> done (record s { rescue = some t })

  pub set_current_task : Scheduler S → ℕ → Outcome (Scheduler S)
  set_current_task s task = do
    assert (not (is_task s.current task))
    assert (not (is_status (s.tasks task).status closed))
    s' ← elim s.current [
      | none ↦ done s
      | some c ↦ move_task_to_idle (s.tasks c) >>= λ (r : Entry S × Bool).
          let s1 = record s { tasks = write s.tasks c r.0 } in
          let queued = requeue s1 c in if r.1 then queued else done s1
    ]
    done (record s' { current = some task })

  abbrev pub save_state : Scheduler S → ℕ → S → Scheduler S
  save_state s t state = record s { tasks = write s.tasks t (record (s.tasks t) { state = state }) }

  -- The state argument is what `*state` holds before the call, and the last result what it holds after.
  pub reschedule : Scheduler S → S → Outcome (Scheduler S × ScheduleResult × S)
  reschedule s state = take_next_task s >>= λ (r : Scheduler S × Option ℕ).
      let s1 = r.0 in
      elim r.1 [
        | none ↦ elim s1.current [
          | none ↦ done (s1, idles, state)
          | some c ↦ keep_task_running (s1.tasks c) >>= λ (k : Entry S × Bool).
              let s2 = record s1 { tasks = write s1.tasks c k.0 } in
              if k.1
              then done (s2, resumes, state)
              else done (record (save_state s2 c state) { current = none }, idles, state)
        ]
        | some t ↦
            let s2 : Scheduler S = elim s1.current [ none ↦ s1 | some c ↦ save_state s1 c state ] in
            set_current_task s2 t >>= λ (s3 : Scheduler S). done (s3, resumes, (s3.tasks t).state)
      ]

  -- The end of `enqueue`: the state is stored before the queue is tried.
  pub push_new : Scheduler S → S → ℕ → Scheduler S × OsStatus
  push_new s state t =
      let s1 = save_state s t state in
      let (queue, fits) = try_push s1.queue t in
      if fits then (record s1 { queue = queue }, success) else (s1, out_of_memory)

  pub enqueue : Scheduler S → S → ℕ → Outcome (Scheduler S × OsStatus)
  enqueue s state t = do
    assert (is_status (s.tasks t).status idle)
    elim s.rescue [
      | none ↦ done (push_new s state t)
      | some rescued ↦
          let (queue, fits) = try_push s.queue rescued in
          if fits
          then done (push_new (record s { queue = queue; rescue = none }) state t)
          else done (s, out_of_memory)
    ]

  -- One round of the loop over the sleeping tasks; the count is of the tasks woken or discarded.
  pub wake_tasks : Scheduler S → ℕ → List ℕ → Outcome (Scheduler S × List ℕ × ℕ)
  wake_tasks s now [] = done (s, [], 0)
  wake_tasks s now (t ∷ ts) = wake_if_timeout (s.tasks t) now >>= λ (w : Entry S × WakeResult).
      let s1 = record s { tasks = write s.tasks t w.0 } in
      elim w.1 [
        | sleeps ↦
            wake_tasks s1 now ts >>= λ (r : Scheduler S × List ℕ × ℕ). done (r.0, t ∷ r.1, r.2)
        | wakes ↦
            let (queue, fits) = try_push s1.queue t in
            assert fits
            >> (wake_tasks (record s1 { queue = queue }) now ts
                >>= λ (r : Scheduler S × List ℕ × ℕ). done (r.0, r.1, r.2 + 1))
        | discards ↦
            wake_tasks s1 now ts >>= λ (r : Scheduler S × List ℕ × ℕ). done (r.0, r.1, r.2 + 1)
      ]

  pub wake_sleeping_tasks : Scheduler S → ℕ → Outcome (Scheduler S × ℕ)
  wake_sleeping_tasks s now = wake_tasks s now s.sleeping >>= λ (r : Scheduler S × List ℕ × ℕ).
      done (record r.0 { sleeping = r.1 }, r.2)

  -- The memory for the ring is the allocator's; the statuses in `tasks` are the callers'.
  pub create : ℕ → (ℕ → Option (ℕ → ℕ)) → (ℕ → Entry S) → OsStatus × Option (Scheduler S)
  create capacity allocate tasks =
      let (status, queue) = RingQueue.create capacity allocate in (status, Option.map made queue)
    where
      made : RingQueue ℕ → Scheduler S
      made queue = record {
        queue = queue;
        current = none;
        rescue = none;
        sleeping = [];
        tasks = tasks;
      }
