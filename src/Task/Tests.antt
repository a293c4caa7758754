-- ===== src/Task/Tests.antt =====
-- A task that sleeps, and one that runs.
use bez_os.Prelude.{ℕ, ◌≡◌, refl, ◌⊎◌, true, false}
use bez_os.Task.{Entry, sleep, done, suspended, running, idle}
use bez_os.Task.Status.{IsLive, sleep_lem}

abbrev sleeper : Entry ℕ
sleeper = record { status = suspended; sleep_until = 40; state = 0 }

abbrev runner : Entry ℕ
runner = record sleeper { status = running }

sleep_lem_example :
    (((running ≡ running) ⊎ (running ≡ suspended))
      × (sleep runner 60 ≡ done (record { status = suspended; sleep_until = 60; state = 0 }, true)))
    ⊎ ((running ≡ idle) × (sleep runner 60 ≡ done (record runner { status = suspended }, true)))
    ⊎ ((¬ IsLive runner) × (sleep runner 60 ≡ done (runner, false)))
sleep_lem_example = sleep_lem runner 60

sleep_while_idle :
    sleep (record runner { status = idle }) 60 ≡ done (record runner { status = suspended }, true)
unfolding sleep
sleep_while_idle = refl
