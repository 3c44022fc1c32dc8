-- ===== src/WaitQueue/Tests.antt =====
-- The theorem on the wait queue module at a concrete run.
use kernel_driver_lab.Prelude.{◌%◌, ◌^◌, ◌≤◌, ◌≡◌, true, not, ◌||◌, arith}
use kernel_driver_lab.WaitQueue.{
  System, resetting, loaded, Reach, here, later, run_thread, run_read, read_sets, wake, see_read,
  count,
}
use kernel_driver_lab.WaitQueue.Counting.{is_ended, is_loaded, wait_queue_counts}

-- Two reads, counted once.
abbrev counted_once : System
counted_once = record {
  mem = record { wait_queue_flag = 1; read_count = 1; reads = 2; counts = 1 };
  pc_thread = resetting;
  pc_module = loaded;
}

counted_once-Reach : Reach counted_once
counted_once-Reach =
    later
      (later
        (later (later (later here (run_read read_sets)) (run_read read_sets))
          (run_thread (wake (λ e. ground (arith, e)))))
        (run_thread (see_read (λ e. ground (arith, e)))))
      (run_thread count)

wait_queue_counts_example :
    ((not (is_ended resetting) || not (is_loaded loaded)) ≡ true)
    × (counted_once.mem.wait_queue_flag ≤ 2)
    × (counted_once.mem.read_count ≡ counted_once.mem.counts % 2 ^ 32)
    × (counted_once.mem.counts ≤ counted_once.mem.reads)
wait_queue_counts_example = wait_queue_counts counted_once-Reach
