-- ===== src/Timer/Tests.antt =====
-- The theorems on the timer modules at concrete runs.
use kernel_driver_lab.Prelude.{◌≡◌, refl, false, not, ◌||◌}
use kernel_driver_lab.Timer.{
  idle, unloaded, CancelTimer, System, Steps, here, later, run_handler, run_exit, fire, count,
  rearm, hrtimer_cancel, start,
}
use kernel_driver_lab.Timer.Exit.{is_idle, is_loaded, hrtimer_safe}

-- The high-resolution timer has run once, and the module is unloaded.
abbrev cancelled : System
cancelled = record {
  mem = record { armed = false; timer_count = 1 };
  pc_handler = idle;
  pc_module = unloaded;
}

cancelled-Steps : Steps CancelTimer start cancelled
cancelled-Steps =
    later
      (later (later (later here (run_handler (fire refl))) (run_handler count)) (run_handler rearm))
      (run_exit (hrtimer_cancel refl))

hrtimer_safe_example :
    (cancelled.mem.armed || not (is_idle cancelled.pc_handler)) ≡ is_loaded cancelled.pc_module
hrtimer_safe_example = hrtimer_safe cancelled-Steps
