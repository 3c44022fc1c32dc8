-- ===== src/RwLock/Tests.antt =====
-- The theorem on the reader-writer lock at a concrete input.
use kernel_driver_lab.Prelude.{◌≡◌, ◌+◌, ◌*◌, ◌%◌, ◌^◌, refl, false, if◌then◌else◌}
use kernel_driver_lab.RwLock.{
  looping, idle, printed, inside, begin, write_lock, load, store, log, write_unlock, start_round,
  read_lock, print, writing, reading, System, run_writer, run_first, run_second, Reach, here, later,
}
use kernel_driver_lab.RwLock.Exclusion.{IsStable, rwlock_safe}

-- After one round of the writer both readers hold the lock, and one has printed.
abbrev together : System
together = record {
  mem = record { writer = false; readers = 2; global_variable = 10; stores = 1 };
  pc_writer = looping;
  pc_first = printed 10;
  pc_second = inside;
}

abbrev written : System
written = record {
  mem = record { writer = false; readers = 0; global_variable = 10; stores = 1 };
  pc_writer = looping;
  pc_first = idle;
  pc_second = idle;
}

written-Reach : Reach written
written-Reach =
    later
      (later
        (later
          (later (later (later here (run_writer begin)) (run_writer (write_lock refl refl)))
            (run_writer load))
          (run_writer store))
        (run_writer log))
      (run_writer write_unlock)

together-Reach : Reach together
together-Reach =
    later
      (later
        (later (later (later written-Reach (run_first start_round)) (run_second start_round))
          (run_first (read_lock refl)))
        (run_second (read_lock refl)))
      (run_first print)

rwlock_safe_example :
    ((if writing looping then reading (printed 10) + reading inside else 0) ≡ 0)
    × (together.mem.writer ≡ writing looping)
    × (together.mem.readers ≡ reading (printed 10) + reading inside)
    × (together.mem.global_variable ≡ (10 * together.mem.stores) % 2 ^ 32)
    × IsStable together.mem (printed 10)
    × IsStable together.mem inside
rwlock_safe_example = rwlock_safe together-Reach
