-- ===== src/IrqSpinlock/Tests.antt =====
-- The theorem on the spinlock with interrupts at a concrete run.
use kernel_driver_lab.Prelude.{◌≡◌, refl, true, false, not, ◌&&◌}
use kernel_driver_lab.IrqSpinlock.{
  System, peeked, spinning, Reach, here, later, run_thread, run_timer, peek, fire, is_idle,
}
use kernel_driver_lab.IrqSpinlock.Handler.{
  is_spinning, thread_inside, timer_inside, IsKept, IsKeptTimer, handler_never_waits,
}

-- The timer has interrupted the thread before it takes the lock.
abbrev interrupted : System
interrupted = record {
  mem = record {
    locked = false;
    enabled = true;
    together = true;
    global_variable = 0;
    armed = false;
  };
  pc_thread = peeked;
  pc_timer = spinning;
}

interrupted-Reach : Reach interrupted
interrupted-Reach = later (later (here true) (run_thread refl peek)) (run_timer (fire refl refl))

handler_never_waits_example :
    ((true && (is_spinning spinning && interrupted.mem.locked)) ≡ false)
    × ((true && (thread_inside peeked && not (is_idle spinning))) ≡ false)
    × ((thread_inside peeked && timer_inside spinning) ≡ false)
    × IsKept interrupted.mem peeked
    × IsKeptTimer interrupted.mem spinning
handler_never_waits_example = handler_never_waits interrupted-Reach
