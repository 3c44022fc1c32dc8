-- ===== src/Spinlock/Tests.antt =====
-- The theorems on the spinlock module at concrete inputs.
use kernel_driver_lab.Prelude.{◌≡◌, ◌%◌, ◌^◌, refl, true, false, ◌&&◌, ◌||◌}
use kernel_driver_lab.Module.{resource_tagged}
use kernel_driver_lab.Spinlock.{
  waiting, stored, critical, System, Reach, here, later, run_one, run_two, begin_one, begin_two,
  peek, lock, load, store,
}
use kernel_driver_lab.Spinlock.Exclusion.{spinlock_safe}

-- Thread one has counted and holds the lock, thread two waits for it.
abbrev contended : System
contended = record {
  mem = record { locked = true; global_variable = 1; stores = 1 };
  pc_one = stored;
  pc_two = waiting;
}

contended-Reach : Reach contended
contended-Reach =
    later
      (later
        (later (later (later (later here (run_one begin_one)) (run_one peek)) (run_two begin_two))
          (run_one (lock refl)))
        (run_one load))
      (run_one store)

spinlock_safe_example :
    ((critical stored && critical waiting) ≡ false)
    × (contended.mem.locked ≡ (critical stored || critical waiting))
    × (contended.mem.global_variable ≡ contended.mem.stores % 2 ^ 32)
spinlock_safe_example = spinlock_safe contended-Reach
