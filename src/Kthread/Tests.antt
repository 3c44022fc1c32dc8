-- ===== src/Kthread/Tests.antt =====
-- The theorem on the thread at a request to stop while it sleeps.
use kernel_driver_lab.Prelude.{◌≤◌, ◌≡◌, ◌⊎◌, refl, true}
use kernel_driver_lab.Kthread.{
  Shared, ThreadPc, testing, sleeping, ended, ThreadMove, go_on, add, wake, print, stopping, System,
  run_thread, run_exit, ask, Reach, here, later,
}
use kernel_driver_lab.Kthread.Stopping.{Runs, none_yet, more, kthread_stops}

abbrev asked : Shared
asked = record { global_variable = 1; should_stop = true; rounds = 1 }

abbrev asleep : System
asleep = record { mem = asked; pc_thread = sleeping; pc_exit = stopping }

asleep-Reach : Reach asleep
asleep-Reach = later (later (later here (run_thread (go_on refl))) (run_thread add)) (run_exit ask)

two_runs : Runs asked sleeping 2 asked testing
two_runs = more (more none_yet wake) print

kthread_stops_example :
    (2 ≤ 4) × ((testing ≡ ended) ⊎ ((m : Shared) × (p : ThreadPc) × ThreadMove asked testing m p))
kthread_stops_example = kthread_stops asleep-Reach refl two_runs
