-- ===== src/Signal/Application/Tests.antt =====
-- The theorems on the programs at a short run: the program registers, waits, and is ended by ctrl-C.
use kernel_driver_lab.Prelude.{◌⊎◌, ◌≤◌, ◌≡◌, refl, pos, Bool, true, false, none, some, [], ◌∷◌}
use kernel_driver_lab.Chardev
use kernel_driver_lab.Chardev.{device_buffer}
use kernel_driver_lab.Chardev.UserMemory.{whole_memory}
use kernel_driver_lab.Signal.{State, my_ioctl, my_release, my_write}
use kernel_driver_lab.Signal.Application.{
  ioctl_userspace, Pc, testing, waiting, exited, System, is_exited, MainMove, opened, register,
  leave, see, reset, close, ctrl_c,
}
use kernel_driver_lab.Signal.Application.Ending.{Steps, program_ends}
use kernel_driver_lab.Signal.Application.Stray.{Reach, ended_signalled}

abbrev fresh : State
fresh = record { device_buffer = device_buffer; task = none; signum = 0 }

abbrev holder : State
holder = record { device_buffer = device_buffer; task = some 7; signum = 44 }

abbrev at : Pc → Bool → System
at pc done = record { driver = holder; pc = pc; done = done; check = false }

-- Two steps after ctrl-C in the inner loop
abbrev two_steps : Steps whole_memory ioctl_userspace 7 (at waiting true) 2 (at testing true)
two_steps = Steps.main (Steps.main Steps.here (see refl refl)) (reset refl)

program_ends_example :
    (2 ≤ 6)
    × ((is_exited testing ≡ true) ⊎ ((u : System) × MainMove ioctl_userspace 7 (at testing true) u))
program_ends_example = program_ends refl two_steps

ended : Reach whole_memory 7 fresh (at (exited (pos 0)) true)
unfolding my_ioctl my_release
ended =
    Reach.main
      (Reach.main
        (Reach.other (Reach.main (Reach.main Reach.here (opened refl)) (register refl))
          (ctrl_c refl refl))
        (leave refl refl))
      (close refl)

message_taken : (Chardev.my_write whole_memory device_buffer (72 ∷ []) 1).0 ≡ pos 1
unfolding Chardev.my_write whole_memory
message_taken = refl

ended_signalled_example :
    (holder.task ≡ some 7) × ((my_write whole_memory holder (72 ∷ []) 1).target ≡ some 7)
ended_signalled_example = ended_signalled ended refl (72 ∷ []) 1 1 message_taken
