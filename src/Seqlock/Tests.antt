-- ===== src/Seqlock/Tests.antt =====
-- The theorem on the sequence lock at a concrete run.
use kernel_driver_lab.Prelude.{◌%◌, ◌^◌, ◌≡◌, refl, false, arith}
use kernel_driver_lab.Seqlock.{
  System, looping, printed, Reach, here, later, run_writer, run_reader, write_seqlock, load, store,
  log, write_sequnlock, read_seqbegin, print,
}
use kernel_driver_lab.Seqlock.Consistent.{writing, seqlock_reading}

-- After one round of the writer the reader has logged 1.
abbrev read_one : System
read_one = record {
  mem = record { locked = false; sequence = 2; seq_variable = 1; stores = 1 };
  pc_writer = looping;
  pc_reader = printed 2 1;
}

read_one-Reach : Reach read_one
read_one-Reach =
    later
      (later
        (later
          (later
            (later (later (later here (run_writer (write_seqlock refl))) (run_writer load))
              (run_writer store))
            (run_writer log))
          (run_writer write_sequnlock))
        (run_reader (read_seqbegin refl)))
      (run_reader print)

seqlock_reading_example :
    (writing looping ≡ false) × (1 ≡ read_one.mem.seq_variable) × (1 ≡ read_one.mem.stores % 2 ^ 64)
seqlock_reading_example = seqlock_reading read_one-Reach refl refl (omega arith)
