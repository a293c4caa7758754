-- ===== src/Task.antt =====
-- sources/kernel/include/task/scheduler_queue.hpp and sources/kernel/src/task/scheduler_queue.cpp:
-- one task of the scheduler, its status and its deadline. A call runs alone: its loops of
-- compare-and-exchange meet no other writer, and take fuel. An instant is a number, the earliest 0.
pub mod Status
pub mod Tests
use bez_os.Prelude.{ltb, if◌then◌else◌, ℕ, zero, suc, Bool, true, false}

-- What a call comes to: a result, a halted kernel (KM_PANIC, KM_ASSERT), or a loop out of fuel.
pub data Outcome {ℓ} (A : Type ℓ) : Type ℓ where
  done : A → Outcome A
  panic : Outcome A
  spinning : Outcome A

infixl 5 ◌>>=◌
abbrev pub ◌>>=◌ {ℓ κ} : {A : Type ℓ} {B : Type κ} → Outcome A → (A → Outcome B) → Outcome B
done a >>= f = f a
panic >>= f = panic
spinning >>= f = spinning

infixl 5 ◌>>◌
abbrev pub ◌>>◌ {ℓ} : {B : Type ℓ} → Outcome (Unit {0}) → Outcome B → Outcome B
m >> k = m >>= λ _. k

-- KM_ASSERT
abbrev pub assert : Bool → Outcome (Unit {0})
assert true = done tt
assert false = panic

pub data TaskStatus : Type 0 where
  idle running suspended terminated closed : TaskStatus

pub data WakeResult : Type 0 where
  wakes discards sleeps : WakeResult

-- Equality of statuses, as `compare_exchange` tests it.
abbrev pub is_status : TaskStatus → TaskStatus → Bool
is_status idle idle = true
is_status running running = true
is_status suspended suspended = true
is_status terminated terminated = true
is_status closed closed = true
is_status _ _ = false

-- SchedulerEntry; `S` is what a context switch saves and restores.
pub record Entry (S : Type 0) : Type 0 where
  pub status : TaskStatus
  pub sleep_until : ℕ
  pub state : S

-- `atomicMax`
abbrev pub atomic_max : ℕ → ℕ → ℕ
atomic_max current value = if ltb current value then value else current

module _ {S : Type 0} where
  pub wake_loop : ℕ → TaskStatus → Entry S → Outcome (Entry S × WakeResult)
  wake_loop zero expected e = spinning
  wake_loop (suc fuel) expected e =
      let retry = wake_loop fuel e.status e in
      if is_status e.status expected
      then done (record e { status = idle }, wakes)
      else elim e.status [
        | running ↦ panic
        | suspended ↦ panic
        | idle ↦ retry
        | terminated ↦ done (e, discards)
        | closed ↦ done (e, discards)
      ]

  unfoldable pub wake_if_timeout : Entry S → ℕ → Outcome (Entry S × WakeResult)
  unfolding wake_loop
  wake_if_timeout e now =
      let loop = wake_loop 2 suspended e in if ltb now e.sleep_until then done (e, sleeps) else loop

  unfoldable pub wake : Entry S → Entry S
  wake e = record e { sleep_until = 0 }

  pub sleep_loop : ℕ → TaskStatus → Entry S → ℕ → Outcome (Entry S × Bool)
  sleep_loop zero expected e timeout = spinning
  sleep_loop (suc fuel) expected e timeout =
      let later = record e { sleep_until = atomic_max e.sleep_until timeout } in
      let retry = sleep_loop fuel e.status later timeout in
      if is_status e.status expected
      then done (record e { status = suspended }, true)
      else elim e.status [
        | closed ↦ done (e, false)
        | terminated ↦ done (e, false)
        | running ↦ retry
        | idle ↦ retry
        | suspended ↦ retry
      ]

  unfoldable pub sleep : Entry S → ℕ → Outcome (Entry S × Bool)
  unfolding sleep_loop
  sleep e timeout = sleep_loop 2 idle e timeout

  pub terminate_loop : ℕ → TaskStatus → Entry S → Outcome (Entry S)
  terminate_loop zero expected e = spinning
  terminate_loop (suc fuel) expected e =
      let retry = terminate_loop fuel e.status e in
      if is_status e.status expected
      then done (record e { status = terminated })
      else elim e.status [
        | running ↦ retry
        | idle ↦ retry
        | suspended ↦ retry
        | terminated ↦ done e
        | closed ↦ done e
      ]

  unfoldable pub terminate : Entry S → Outcome (Entry S)
  unfolding terminate_loop
  terminate e = terminate_loop 2 idle e

  unfoldable pub is_closed : Entry S → Bool
  is_closed e = is_status e.status closed

  unfoldable pub move_task_to_idle : Entry S → Outcome (Entry S × Bool)
  move_task_to_idle e = elim e.status [
    | running ↦ done (record e { status = idle }, true)
    | idle ↦ panic
    | suspended ↦ done (e, false)
    | terminated ↦ done (record e { status = closed }, false)
    | closed ↦ panic
  ]

  unfoldable pub move_task_to_running : Entry S → Outcome (Entry S × Bool)
  move_task_to_running e = elim e.status [
    | idle ↦ done (record e { status = running }, true)
    | running ↦ panic
    | suspended ↦ done (e, false)
    | terminated ↦ done (record e { status = closed }, false)
    | closed ↦ panic
  ]

  unfoldable pub keep_task_running : Entry S → Outcome (Entry S × Bool)
  keep_task_running e = elim e.status [
    | running ↦ done (e, true)
    | idle ↦ panic
    | suspended ↦ done (e, false)
    | terminated ↦ done (record e { status = closed }, false)
    | closed ↦ panic
  ]
