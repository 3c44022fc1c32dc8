-- ===== src/Completion/Tests.antt =====
-- The theorem on the completion module at a run in which two reads overlap.
use kernel_driver_lab.Prelude.{◌≡◌, ◌≤◌, refl, true, not, ◌||◌, arith}
use kernel_driver_lab.Completion.{
  System, waiting, outside, no_readers, start, Steps, here, later, run_read, read_sets,
  read_finds_none, read_wakes,
}
use kernel_driver_lab.Completion.Protocol.{is_leaving, is_exiting, completion_safe}

-- Two reads have both seen that nothing is completed, and have both completed.
abbrev completed_twice : System
completed_twice = record {
  mem = record { wait_flag = 1; done = 2 };
  pc_thread = waiting;
  readers = no_readers;
  pc_exit = outside;
}

two_reads : Steps 2 start completed_twice
two_reads =
    later
      (later
        (later
          (later
            (later (later here (run_read refl (omega arith) read_sets))
              (run_read refl (omega arith) read_sets))
            (run_read refl (omega arith) (read_finds_none refl refl)))
          (run_read refl (omega arith) (read_finds_none refl refl)))
        (run_read refl (omega arith) (read_wakes refl)))
      (run_read refl (omega arith) (read_wakes refl))

completion_safe_example :
    ((not (is_leaving waiting) || is_exiting outside) ≡ true) × (completed_twice.mem.done ≤ 2)
completion_safe_example = completion_safe 2 (omega arith) two_reads
