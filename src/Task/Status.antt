-- ===== src/Task/Status.antt =====
-- How the operations change a task's status and deadline.
use bez_os.Prelude.{ℕ, ◌≤◌, ◌<◌, max, ◌≡◌, ◌≢◌, ◌⊎◌, true, false, arith}
use bez_os.Task.{
  Entry, terminated, terminate, sleep, wake_if_timeout, closed, done, running, suspended, sleeps,
  idle, wakes, discards, panic,
}

module _ {S : Type 0} where
  -- A task that may still run: its status is none of the last two.
  abbrev pub IsLive : Entry S → Type 0
  IsLive e = (e.status ≢ terminated) × (e.status ≢ closed)

  -- `terminate` ends in at most two rounds, whatever the status: a live task is terminated, a
  -- terminated or closed one is left as it is.
  pub terminate_lem :
      (e : Entry S)
      → (IsLive e × (terminate e ≡ done (record e { status = terminated })))
        ⊎ ((¬ IsLive e) × (terminate e ≡ done e))
  unfolding terminate
  terminate_lem e = ground arith

  -- `sleep` ends in at most two rounds: a running or suspended task is suspended, and its deadline
  -- is not before the timeout or the old deadline; an idle one is suspended too, but keeps its old
  -- deadline; a task that is not live is left as it is, and the call reports that.
  pub sleep_lem :
      (e : Entry S) (timeout : ℕ)
      → (((e.status ≡ running) ⊎ (e.status ≡ suspended))
          × (sleep e timeout
              ≡ done
                  (record e { status = suspended; sleep_until = max e.sleep_until timeout }, true)))
        ⊎ ((e.status ≡ idle) × (sleep e timeout ≡ done (record e { status = suspended }, true)))
        ⊎ ((¬ IsLive e) × (sleep e timeout ≡ done (e, false)))
  unfolding sleep
  sleep_lem e timeout = ground arith

  -- What the loop over the sleeping tasks meets.
  pub wake_if_timeout_at :
      (e : Entry S) (now : ℕ)
      → (now < e.sleep_until → wake_if_timeout e now ≡ done (e, sleeps))
        × (e.sleep_until ≤ now
            → (e.status ≡ suspended) ⊎ (e.status ≡ idle)
            → wake_if_timeout e now ≡ done (record e { status = idle }, wakes))
  unfolding wake_if_timeout
  wake_if_timeout_at e now = ground arith

  -- `wakeIfTimeout` before the deadline changes nothing. From then on it makes a suspended or idle
  -- task idle, discards one that is not live, and halts the kernel on a running one.
  wake_if_timeout_lem :
      (e : Entry S) (now : ℕ)
      → ((now < e.sleep_until) × (wake_if_timeout e now ≡ done (e, sleeps)))
        ⊎ ((e.sleep_until ≤ now)
            × ((e.status ≡ suspended) ⊎ (e.status ≡ idle))
            × (wake_if_timeout e now ≡ done (record e { status = idle }, wakes)))
        ⊎ ((e.sleep_until ≤ now) × (¬ IsLive e) × (wake_if_timeout e now ≡ done (e, discards)))
        ⊎ ((e.sleep_until ≤ now) × (e.status ≡ running) × (wake_if_timeout e now ≡ panic))
  unfolding wake_if_timeout
  wake_if_timeout_lem e now = ground arith
