-- ===== src/Mutex/Tests.antt =====
-- The theorem on the counter under a mutex at a concrete run.
use kernel_driver_lab.Prelude.{◌≡◌, refl, true, ◌⊎◌, [], ◌∷◌}
use kernel_driver_lab.Mutex.{
  stored, looping, System, run_one, Reach, here, later, begin, mutex_lock, load, store, print,
}
use kernel_driver_lab.Mutex.Lines.{count, mutex_refines_counter}

-- The first thread is about to log.
abbrev counted : System
counted = record {
  mem = record { locked = true; read_count = 1; log = [] };
  pc_one = stored;
  pc_two = looping;
}

counted-Reach : Reach counted
counted-Reach =
    let waits = later (later here (run_one begin)) (run_one (mutex_lock refl)) in
    later (later waits (run_one load)) (run_one store)

mutex_refines_counter_example : ((1 ∷ []) ≡ counted.mem.log) ⊎ ((1 ∷ []) ≡ count counted.mem.log)
mutex_refines_counter_example = mutex_refines_counter counted-Reach (run_one print)
