-- ===== src/Scheduler/Tests.antt =====
-- A core with a ring of eight slots: task 1 runs, 2 and 3 wait, 4 and 5 sleep.
use bez_os.Circular.{window}
use bez_os.Prelude.{
  ltb, leb, ◌==◌, if◌then◌else◌, ℕ, ◌+◌, ◌*◌, ◌≡◌, refl, inl, ◌&&◌, none, some, [], ◌∷◌, arith,
}
use bez_os.Task.{Entry, done, suspended, running, idle}
use bez_os.RingQueue.{RingQueue}
use bez_os.RingQueue.Queued.{Queued}
use bez_os.Scheduler.{Scheduler, take_next_task, reschedule, resumes, wake_sleeping_tasks}
use bez_os.Scheduler.Next.{take_next_task_lem, took}
use bez_os.Scheduler.Rounds.{Turns, ticks, ticks_lem}
use bez_os.Scheduler.Turn.{switched, reschedule_switches}
use bez_os.Scheduler.Wakeup.{wake_sleeping_tasks_lem, woken}

abbrev task_of : ℕ → Entry ℕ
task_of t =
    if t == 1
    then record { status = running; sleep_until = 0; state = 100 }
    else if leb 4 t && ltb t 6
    then record { status = suspended; sleep_until = 10 * t; state = t }
    else record { status = idle; sleep_until = 0; state = t }

abbrev ring_of : ℕ → RingQueue ℕ
ring_of n = record {
  storage = λ i. i + 2;
  slots = 8;
  producer_head = n;
  producer_tail = n;
  consumer_head = 0;
  consumer_tail = 0;
}

abbrev core : Scheduler ℕ
core = record {
  queue = ring_of 2;
  current = some 1;
  rescue = none;
  sleeping = 4 ∷ 5 ∷ [];
  tasks = task_of;
}

two-Queued : Queued (ring_of 2) (2 ∷ 3 ∷ [])
unfolding window
two-Queued = record {
  quiet = record {
    room = omega arith;
    word = omega arith;
    head_in = omega arith;
    consumed = refl;
    produced = refl;
    ahead = refl;
  };
  waiting = refl;
}

take_next_task_lem_example :
    (queue : RingQueue ℕ) × (take_next_task core ≡ done (took core queue 2, some 2))
    × Queued queue (3 ∷ [])
    × (queue.slots ≡ 8)
take_next_task_lem_example = take_next_task_lem core [] 2 (3 ∷ []) two-Queued tt refl

reschedule_switches_example :
    (s' : Scheduler ℕ) × (reschedule core 111 ≡ done (s', resumes, 2))
    × Queued s'.queue (3 ∷ 1 ∷ [])
    × (s'.current ≡ some 2)
    × (s'.rescue ≡ none)
    × (s'.tasks ≡ switched task_of 1 111 2)
reschedule_switches_example =
    reschedule_switches core 111 1 [] 2 (3 ∷ []) refl (omega arith) refl two-Queued tt refl

core-Turns : Turns core 1 (2 ∷ 3 ∷ [])
core-Turns = record {
  current = refl;
  runs = refl;
  queued = two-Queued;
  all_idle = (refl, (refl, tt));
  distinct = ((omega arith, (omega arith, tt)), ((omega arith, tt), (tt, tt)));
}

-- Two ticks bring task 3 its turn.
ticks_lem_example :
    (s' : Scheduler ℕ) × (ticks 1 (λ i. 111 + i) core ≡ done (s', resumes, 3))
    × Turns s' 3 (1 ∷ 2 ∷ [])
ticks_lem_example = ticks_lem core (λ i. 111 + i) 1 (2 ∷ []) 3 [] core-Turns

abbrev with_rescue : Scheduler ℕ
with_rescue = record core { rescue = some 7 }

wake_sleeping_tasks_lem_example :
    (queue : RingQueue ℕ) × (wake_sleeping_tasks core 45
      ≡ done (
        record core { queue = queue; tasks = woken task_of 45 (4 ∷ 5 ∷ []); sleeping = 5 ∷ [] },
        1,
      ))
    × Queued queue (2 ∷ 3 ∷ 4 ∷ [])
wake_sleeping_tasks_lem_example =
    wake_sleeping_tasks_lem core 45 (2 ∷ 3 ∷ []) (inl refl, (inl refl, tt)) two-Queued (omega arith)
