-- ===== src/Deferred/Harm.antt =====
-- What an exit function that does not keep the order leads to.
use kernel_driver_lab.Prelude.{◌≡◌, refl, Bool, true, false, List, [], ◌∷◌}
use kernel_driver_lab.Deferred.{
  quiet, idle, interrupt, queue_work, ExitCall, flush_work, destroy_workqueue, free_irq, flush,
  destroy, free, unload, System, run_handler, run_exit, Steps, here, later, start, harmed,
}
use kernel_driver_lab.Deferred.Order.{orderly_from, orderly}

-- From `s` a state is reached in which the module is unloaded, and harmed.
abbrev pub Harms : System → Type 0
Harms s = (t : System) × (Steps s t × (t.mem.loaded ≡ false) × (harmed t ≡ true))

-- The interrupt is freed, and work is pending.
abbrev late : List ExitCall → System
late cs = record {
  mem = record { registered = false; queue = true; pending = true; misused = false; loaded = true };
  pc_handler = quiet;
  pc_work = idle;
  calls = cs;
}

-- Work was put on the queue that is destroyed.
abbrev broken : Bool → List ExitCall → System
broken r cs = record {
  mem = record { registered = r; queue = false; pending = false; misused = true; loaded = true };
  pc_handler = quiet;
  pc_work = idle;
  calls = cs;
}

broken_harmed : {s : System} (r : Bool) (cs : List ExitCall) → Steps s (broken r cs) → Harms s
broken_harmed r [] m = (_, (later m (run_exit unload), refl, refl))
broken_harmed r (flush_work ∷ cs) m = broken_harmed r cs (later m (run_exit (flush refl refl)))
broken_harmed r (destroy_workqueue ∷ cs) m =
    broken_harmed r cs (later m (run_exit (destroy refl refl)))
broken_harmed r (free_irq ∷ cs) m = broken_harmed false cs (later m (run_exit (free refl)))

settled-orderly : (cs : List ExitCall) → orderly_from true true cs ≡ true
settled-orderly [] = refl
settled-orderly (flush_work ∷ cs) = settled-orderly cs
settled-orderly (destroy_workqueue ∷ cs) = settled-orderly cs
settled-orderly (free_irq ∷ cs) = settled-orderly cs

late_harmed :
    {s : System} (cs : List ExitCall)
    → orderly_from true false cs ≡ false
    → Steps s (late cs)
    → Harms s
late_harmed [] o m = (_, (later m (run_exit unload), refl, refl))
late_harmed (flush_work ∷ cs) o m = let e = settled-orderly cs in cc
late_harmed (destroy_workqueue ∷ cs) o m = let e = settled-orderly cs in cc
late_harmed (free_irq ∷ cs) o m = late_harmed cs o (later m (run_exit (free refl)))

start_harmed : {s : System} (cs : List ExitCall) → orderly cs ≡ false → Steps s (start cs) → Harms s
start_harmed [] o m =
    let interrupted = later (later m (run_exit unload)) (run_handler (interrupt refl)) in
    (_, (later interrupted (run_handler queue_work), refl, refl))
start_harmed (flush_work ∷ cs) o m = start_harmed cs o (later m (run_exit (flush refl refl)))
start_harmed (destroy_workqueue ∷ cs) o m = broken_harmed true cs (
    later (later (later m (run_exit (destroy refl refl))) (run_handler (interrupt refl)))
      (run_handler queue_work))
start_harmed (free_irq ∷ cs) o m = late_harmed cs o (
    later (later (later m (run_handler (interrupt refl))) (run_handler queue_work))
      (run_exit (free refl)))

-- If the exit function does not keep the order, then there is a way for the interrupt, the work and the
-- unloading to run after which the module is unloaded, and code of the module is about to run or work
-- was put on a queue that is destroyed.
pub disorderly_harmed : (cs : List ExitCall) → orderly cs ≡ false → Harms (start cs)
disorderly_harmed cs o = start_harmed cs o here
