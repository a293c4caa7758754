-- ===== src/Scheduler/Wakeup.antt =====
-- `wakeSleepingTasks`: every sleeper whose time has come, and no other.
use bez_os.Task.Status.{wake_if_timeout_at}
use bez_os.RingQueue.Queued.{Queued, push-Queued}
use bez_os.Scheduler.{
  wake_tasks, wake_sleeping_tasks, Scheduler, done, try_push, RingQueue, wake_tasks,
}
use bez_os.Prelude.{
  leb, if◌then◌else◌, Bool-cases, length, length-append, ℕ, suc, ◌+◌, ◌<◌, ◌≡◌, refl, ◌∙◌, ◌⊎◌, inl,
  inr, Bool, true, false, List, [], ◌∷◌, ◌++◌, arith, add-one, append-nil, append_assoc,
}
use bez_os.Prelude.Store.{write, write_same}
use bez_os.Task.{◌>>=◌, Entry, idle, suspended}

module _ {S : Type 0} where
  abbrev pub is_due : (ℕ → Entry S) → ℕ → ℕ → Bool
  is_due tasks now t = leb (tasks t).sleep_until now

  -- Those whose deadline has come, and those who sleep on.
  abbrev pub due : (ℕ → Entry S) → ℕ → List ℕ → List ℕ
  due tasks now [] = []
  due tasks now (t ∷ ts) = if is_due tasks now t then t ∷ due tasks now ts else due tasks now ts

  abbrev pub asleep : (ℕ → Entry S) → ℕ → List ℕ → List ℕ
  asleep tasks now [] = []
  asleep tasks now (t ∷ ts) =
      if is_due tasks now t then asleep tasks now ts else t ∷ asleep tasks now ts

  -- The tasks that are due become idle.
  abbrev pub woken : (ℕ → Entry S) → ℕ → List ℕ → ℕ → Entry S
  woken tasks now [] = tasks
  woken tasks now (t ∷ ts) =
      woken
        (if is_due tasks now t then write tasks t (record (tasks t) { status = idle }) else tasks)
        now ts

  -- A sleeper is suspended, or idle already.
  abbrev pub AllSleepers : (ℕ → Entry S) → List ℕ → Type 0
  AllSleepers tasks [] = Unit
  AllSleepers tasks (t ∷ ts) =
      (((tasks t).status ≡ suspended) ⊎ ((tasks t).status ≡ idle)) × AllSleepers tasks ts

  abbrev made_idle : (ℕ → Entry S) → ℕ → ℕ → Entry S
  made_idle tasks t = write tasks t (record (tasks t) { status = idle })

  -- Making a task idle moves no deadline, and leaves every sleeper one.
  due-made_idle :
      (tasks : ℕ → Entry S) (now t : ℕ) (ts : List ℕ)
      → (due (made_idle tasks t) now ts ≡ due tasks now ts)
        × (asleep (made_idle tasks t) now ts ≡ asleep tasks now ts)
  due-made_idle tasks now t [] = (refl, refl)
  due-made_idle tasks now t (u ∷ us) = ground (arith, due-made_idle tasks now t us)

  AllSleepers-made_idle :
      (tasks : ℕ → Entry S) (t : ℕ) (ts : List ℕ)
      → AllSleepers tasks ts
      → AllSleepers (made_idle tasks t) ts
  AllSleepers-made_idle tasks t [] a = tt
  AllSleepers-made_idle tasks t (u ∷ us) a = (ground arith, AllSleepers-made_idle tasks t us a.1)

  loop_later :
      (s : Scheduler S) (now t : ℕ) (ts : List ℕ)
      → is_due s.tasks now t ≡ false
      → wake_tasks s now (t ∷ ts)
        ≡ (wake_tasks s now ts >>= λ (r : Scheduler S × List ℕ × ℕ). done (r.0, t ∷ r.1, r.2))
  unfolding wake_tasks
  loop_later s now t ts later =
      let e = (wake_if_timeout_at (s.tasks t) now).0 (ground arith) in
      rw (e, write_same s.tasks t, wake_tasks)

  loop_due :
      (s : Scheduler S) (now t : ℕ) (ts : List ℕ)
      → is_due s.tasks now t ≡ true
      → ((s.tasks t).status ≡ suspended) ⊎ ((s.tasks t).status ≡ idle)
      → (try_push s.queue t).1 ≡ true
      → wake_tasks s now (t ∷ ts) ≡ (
          wake_tasks
            (record s { queue = (try_push s.queue t).0; tasks = made_idle s.tasks t })
            now
            ts
          >>= λ (r : Scheduler S × List ℕ × ℕ). done (r.0, r.1, r.2 + 1))
  unfolding wake_tasks
  loop_due s now t ts on_time sleeper fits =
      let e = (wake_if_timeout_at (s.tasks t) now).1 (ground arith) sleeper in
      rw (e, fits, wake_tasks)

  -- What the loop is to come to: its result, and what the ring holds.
  pub record Wakes (s : Scheduler S) (now : ℕ) (ts xs : List ℕ) (queue : RingQueue ℕ) : Type 0 where
    pub comes_to :
        wake_tasks s now ts
        ≡ done (
          record s { queue = queue; tasks = woken s.tasks now ts },
          asleep s.tasks now ts,
          length (due s.tasks now ts),
        )
    pub queued : Queued queue (xs ++ due s.tasks now ts)

  Wakes-later :
      (s : Scheduler S) (now t : ℕ) (ts xs : List ℕ) (queue : RingQueue ℕ)
      → is_due s.tasks now t ≡ false
      → Wakes s now ts xs queue
      → Wakes s now (t ∷ ts) xs queue
  Wakes-later s now t ts xs queue later w = record {
    comes_to = rw later (loop_later s now t ts later ∙ rw w.comes_to);
    queued = rw later w.queued;
  }

  Wakes-due :
      (s : Scheduler S) (now t : ℕ) (ts xs : List ℕ) (queue : RingQueue ℕ)
      → is_due s.tasks now t ≡ true
      → ((s.tasks t).status ≡ suspended) ⊎ ((s.tasks t).status ≡ idle)
      → (try_push s.queue t).1 ≡ true
      → Wakes
          (record s { queue = (try_push s.queue t).0; tasks = made_idle s.tasks t })
          now
          ts
          (xs ++ (t ∷ []))
          queue
      → Wakes s now (t ∷ ts) xs queue
  Wakes-due s now t ts xs queue on_time sleeper fits w =
      let same = due-made_idle s.tasks now t ts in
      record {
        comes_to =
            rw on_time
              (loop_due s now t ts on_time sleeper fits ∙ rw (w.comes_to, same.0, same.1, add-one));
        queued = rw on_time (rw (same.0, append_assoc) at w.queued);
      }

  wake_tasks_lem :
      (s : Scheduler S) (now : ℕ) (ts xs : List ℕ)
      → AllSleepers s.tasks ts
      → Queued s.queue xs
      → length xs + length (due s.tasks now ts) < s.queue.slots
      → (queue : RingQueue ℕ) × Wakes s now ts xs queue
  unfolding wake_tasks
  wake_tasks_lem s now [] xs a v room =
      (s.queue, record { comes_to = refl; queued = rw append-nil v })
  wake_tasks_lem s now (t ∷ ts) xs a v room = elim (Bool-cases (is_due s.tasks now t)) [
    | inl on_time ↦
        let fits : length xs + suc (length (due s.tasks now ts)) < s.queue.slots =
          rw on_time at room in
        let pushed = (push-Queued s.queue xs t v).0 (omega arith) in
        let s1 = record s { queue = (try_push s.queue t).0; tasks = made_idle s.tasks t } in
        let fits' : length (xs ++ (t ∷ [])) + length (due s1.tasks now ts) < s1.queue.slots =
          rw ((due-made_idle s.tasks now t ts).0, pushed.2)
            (omega (arith, length-append {0} xs (t ∷ []))) in
        let (queue, w) =
          wake_tasks_lem s1 now ts (xs ++ (t ∷ [])) (AllSleepers-made_idle s.tasks t ts a.1)
            pushed.1 fits' in
        (queue, Wakes-due s now t ts xs queue on_time a.0 pushed.0 w)
    | inr later ↦
        let (queue, w) = wake_tasks_lem s now ts xs a.1 v (rw later at room) in
        (queue, Wakes-later s now t ts xs queue later w)
  ]

  -- Of sleeping tasks that are suspended or idle, `wakeSleepingTasks` makes every one idle whose deadline
  -- has come, puts these at the end of the queue in their order and counts them, and leaves the others
  -- asleep in theirs. It wants room in the queue for those that wake.
  pub wake_sleeping_tasks_lem :
      (s : Scheduler S) (now : ℕ) (xs : List ℕ)
      → AllSleepers s.tasks s.sleeping
      → Queued s.queue xs
      → length xs + length (due s.tasks now s.sleeping) < s.queue.slots
      → (queue : RingQueue ℕ) × (wake_sleeping_tasks s now
          ≡ done (
            record s {
              queue = queue;
              tasks = woken s.tasks now s.sleeping;
              sleeping = asleep s.tasks now s.sleeping;
            },
            length (due s.tasks now s.sleeping),
          ))
        × Queued queue (xs ++ due s.tasks now s.sleeping)
  unfolding wake_sleeping_tasks
  wake_sleeping_tasks_lem s now xs a v room =
      let (queue, w) = wake_tasks_lem s now s.sleeping xs a v room in
      (queue, rw w.comes_to, w.queued)
