-- ===== src/Chardev/Concurrent/Tests.antt =====
-- The theorems on overlapping calls at short messages and at one of 1024 bytes.
use kernel_driver_lab.Prelude.{
  ℕ, zero, suc, ◌≡◌, ◌↔◌, refl, pos, true, some, List, [], ◌∷◌, take, set, replicate, arith,
  length-replicate,
}
use kernel_driver_lab.Chardev.{buff_size, device_buffer, strlen, my_write}
use kernel_driver_lab.Chardev.Terminated.{device_buffer-IsTerminated}
use kernel_driver_lab.Chardev.UserMemory.{whole_memory}
use kernel_driver_lab.Chardev.Concurrent.Alone.{Run, first_pc, write_alone}
use kernel_driver_lab.Chardev.Text.{AllNonzero}
use kernel_driver_lab.Chardev.Concurrent.{
  storing, ending, measuring, copying, returned, overrun, System, begin_write, enter_read, run,
  Reach, here, later,
}
use kernel_driver_lab.Chardev.Concurrent.Inside.{store_in}
use kernel_driver_lab.Chardev.Concurrent.Bounded.{IsSafe, overlapping-IsSafe}
use kernel_driver_lab.Chardev.Concurrent.Overrun.{overlapping_overruns}
use kernel_driver_lab.Chardev.Concurrent.Truncated.{overlapping_cuts}

-- A write of "Hi" whose first byte is stored, and a read that has begun in between
abbrev halfway : System
halfway = record {
  buffer = set device_buffer 0 72;
  calls = measuring 0 0 ∷ storing (105 ∷ []) 1 true ∷ [];
}

halfway-Reach : Reach 2 halfway
unfolding device_buffer
halfway-Reach =
    later (later (later here (begin_write (72 ∷ 105 ∷ []) (omega arith))) (enter_read 0))
      (run (measuring 0 0 ∷ []) [] refl (store_in device_buffer (omega arith)))

overlapping-IsSafe_example : IsSafe halfway
overlapping-IsSafe_example = overlapping-IsSafe 2 (omega arith) halfway-Reach

AllNonzero-replicate : (n : ℕ) → AllNonzero (replicate n 1)
AllNonzero-replicate zero = tt
AllNonzero-replicate (suc n) = (omega arith, AllNonzero-replicate n)

overlapping_overruns_example :
    Reach buff_size (record { buffer = replicate 1024 1; calls = overrun ∷ ending buff_size ∷ [] })
overlapping_overruns_example =
    overlapping_overruns (replicate 1024 1) 0 (length-replicate {A = ℕ} 1024 1)
      (AllNonzero-replicate 1024)

-- "a", and then "Hi"
overlapping_cuts_example :
    (b : List ℕ) × Reach buff_size
      (record { buffer = b; calls = returned (pos 2) [] ∷ copying 1 [] ∷ returned (pos 1) [] ∷ [] })
    × (strlen b ≡ some 1)
    × (take 1 b ≡ 72 ∷ [])
overlapping_cuts_example =
    overlapping_cuts (97 ∷ []) (72 ∷ 105 ∷ []) (omega arith) (omega arith) (omega arith)
      (omega arith) (omega arith)

-- A write of five bytes of two, into a module that is just loaded
write_alone_example :
    let (result, after) = my_write whole_memory device_buffer (72 ∷ 105 ∷ []) 5 in
    Run device_buffer
      (first_pc whole_memory device_buffer (72 ∷ 105 ∷ []) 5)
      after
      (returned result [])
    ↔ (((result, after) ≡ my_write whole_memory device_buffer (72 ∷ 105 ∷ []) 5)
        × (◌≡◌ {A = List ℕ} [] []))
write_alone_example =
    write_alone whole_memory device_buffer (72 ∷ 105 ∷ []) 5 device_buffer-IsTerminated
