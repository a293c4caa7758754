-- ===== src/Scheduler/Rounds.antt =====
-- `reschedule` at every tick of the timer: the waiting tasks take turns.
use bez_os.Prelude.{
  length, ℕ, zero, suc, ◌≡◌, ap, ◌∙◌, ◌≢◌, some, List, [], ◌∷◌, ◌++◌, arith, append_assoc,
}
use bez_os.Scheduler.{Scheduler, ScheduleResult, reschedule, resumes, idle, Outcome, done, ◌>>=◌}
use bez_os.Scheduler.Turn.{reschedule_switches, switched}
use bez_os.RingQueue.Queued.{Queued}
use bez_os.Task.{running}

abbrev All : (ℕ → Type 0) → List ℕ → Type 0
All P [] = Unit
All P (x ∷ xs) = P x × All P xs

abbrev Distinct : List ℕ → Type 0
Distinct [] = Unit
Distinct (x ∷ xs) = All (λ y. x ≢ y) xs × Distinct xs

All-map : (P Q : ℕ → Type 0) (xs : List ℕ) → ((x : ℕ) → P x → Q x) → All P xs → All Q xs
All-map P Q [] f a = tt
All-map P Q (x ∷ xs) f a = (f x a.0, All-map P Q xs f a.1)

All-append_last : (P : ℕ → Type 0) (xs : List ℕ) (c : ℕ) → All P xs → P c → All P (xs ++ (c ∷ []))
All-append_last P [] c a p = (p, tt)
All-append_last P (x ∷ xs) c a p = (a.0, All-append_last P xs c a.1 p)

All-both : (P Q : ℕ → Type 0) (xs : List ℕ) → All P xs → All Q xs → All (λ x. P x × Q x) xs
All-both P Q [] a b = tt
All-both P Q (x ∷ xs) a b = ((a.0, b.0), All-both P Q xs a.1 b.1)

All-middle : (P : ℕ → Type 0) (xs : List ℕ) (t : ℕ) (ys : List ℕ) → All P (xs ++ (t ∷ ys)) → P t
All-middle P [] t ys a = a.0
All-middle P (x ∷ xs) t ys a = All-middle P xs t ys a.1

Distinct-append_last :
    (xs : List ℕ) (c : ℕ) → Distinct xs → All (λ x. c ≢ x) xs → Distinct (xs ++ (c ∷ []))
Distinct-append_last [] c d a = (tt, tt)
Distinct-append_last (x ∷ xs) c d a =
    (All-append_last (λ y. x ≢ y) xs c d.0 (grind (arith, a.0)), Distinct-append_last xs c d.1 a.1)

module _ {S : Type 0} where
  -- A tick of the timer, and `n` more; `states` are the registers at each.
  pub ticks : ℕ → (ℕ → S) → Scheduler S → Outcome (Scheduler S × ScheduleResult × S)
  ticks zero states s = reschedule s (states 0)
  ticks (suc n) states s = reschedule s (states 0) >>= λ (r : Scheduler S × ScheduleResult × S).
      ticks n (λ i. states (suc i)) r.0

  -- A task runs, and different ones are queued, all of them idle.
  pub record Turns (s : Scheduler S) (c : ℕ) (waiting : List ℕ) : Type 0 where
    pub current : s.current ≡ some c
    pub runs : (s.tasks c).status ≡ running
    pub queued : Queued s.queue waiting
    pub all_idle : All (λ t. (s.tasks t).status ≡ idle) waiting
    pub distinct : Distinct (c ∷ waiting)

  -- A tick gives the turn to the first of the queue.
  tick-Turns :
      (s : Scheduler S) (state : S) (c u : ℕ) (us : List ℕ)
      → Turns s c (u ∷ us)
      → (s' : Scheduler S) × (reschedule s state ≡ done (s', resumes, (s.tasks u).state))
        × Turns s' u (us ++ (c ∷ []))
        × (s'.tasks ≡ switched s.tasks c state u)
  tick-Turns s state c u us v =
      let apart : c ≢ u = v.distinct.0.0 in
      let (s', found, queued, current, _, tasks) =
        reschedule_switches s state c [] u us v.current apart v.runs v.queued tt v.all_idle.0 in
      let others =
        All-both (λ t. (s.tasks t).status ≡ idle) (λ t. (c ≢ t) × (u ≢ t)) us v.all_idle.1
          (All-both (λ t. c ≢ t) (λ t. u ≢ t) us v.distinct.0.1 v.distinct.1.0) in
      (
        s',
        found,
        record {
          current = current;
          runs = rw tasks (ground (arith, apart));
          queued = queued;
          all_idle = rw tasks (
              All-append_last _ us c (All-map _ _ us (λ t p. ground (arith, p.0, p.1)) others)
                (ground arith));
          distinct = (
            All-append_last _ us c v.distinct.1.0 (ground (arith, apart)),
            Distinct-append_last us c v.distinct.1.1 v.distinct.0.1,
          );
        },
        tasks,
      )

  -- At first a task `c` runs and different ones, all of them idle, are queued, and then nothing but ticks of
  -- the timer happens. After one tick more than there are tasks in the queue before `t`, `t` is the current
  -- and running task, with its own registers loaded. The tasks behind it are the first of the queue, then
  -- come `c` and those that were before `t`, all of them idle.
  pub ticks_lem :
      (s : Scheduler S) (states : ℕ → S) (c : ℕ) (before : List ℕ) (t : ℕ) (rest : List ℕ)
      → Turns s c (before ++ (t ∷ rest))
      → (s' : Scheduler S) × (ticks (length before) states s
          ≡ done (s', resumes, (s.tasks t).state))
        × Turns s' t (rest ++ (c ∷ before))
  unfolding ticks
  ticks_lem s states c [] t rest v =
      let (s', found, turns, _) = tick-Turns s (states 0) c t rest v in (s', found, turns)
  ticks_lem s states c (u ∷ us) t rest v =
      let (s1, first, turns, tasks) = tick-Turns s (states 0) c u (us ++ (t ∷ rest)) v in
      let next : Turns s1 u (us ++ (t ∷ (rest ++ (c ∷ [])))) =
        rw (append_assoc us (t ∷ rest) (c ∷ [])) at turns in
      let (s', found, turns') = ticks_lem s1 (λ i. states (suc i)) u us t (rest ++ (c ∷ [])) next in
      let not_first : c ≢ t = All-middle _ us t rest v.distinct.0.1 in
      let not_next : u ≢ t = All-middle _ us t rest v.distinct.1.0 in
      let kept : (s1.tasks t).state ≡ (s.tasks t).state =
        rw tasks (ground (arith, not_first, not_next)) in
      (
        s',
        rw first (found ∙ ap (λ x. done (s', resumes, x)) kept),
        rw (append_assoc rest (c ∷ []) (u ∷ us)) at turns',
      )
