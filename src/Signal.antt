-- ===== src/Signal.antt =====
-- The modules of k_signal_module-19 that send a signal to the process that registered: the calls of
-- signal_module.c, and the ioctl of sec_signal_module.c.
pub mod Calls
pub mod Application
use kernel_driver_lab.Prelude.{
  ℕ, ℤ, pos, efault, einval, not, ◌==◌, if◌then◌else◌, Option, none, some, List, set,
}
use kernel_driver_lab.Chardev
use kernel_driver_lab.Chardev.{to_copy, safe_len, ReadOutcome}
use kernel_driver_lab.Chardev.UserMemory.{Uaccess}

-- The variables. `task` is a pointer to the task of a process, here the number of the process; the
-- modules take no reference to the task, so that the pointer may outlive it.
pub record State : Type 0 where
  pub device_buffer : List ℕ
  pub task : Option ℕ
  pub signum : ℕ

-- A call's result, the state after it, and the pointer that it hands to `send_sig_info`. The call is the
-- kernel's: where the task has been freed, it uses freed memory, and the result here says nothing.
pub record Sent : Type 0 where
  pub result : ℤ
  pub state : State
  pub target : Option ℕ

-- `_IOW('a', 'b', int)`
abbrev pub io_write : ℕ
io_write = 0x40046162

-- `SIGNO`
abbrev pub signo : ℕ
signo = 44

-- `my_ioctl`; `current` is the calling process.
unfoldable pub my_ioctl : State → ℕ → ℕ → Sent
my_ioctl s current cmd = record {
  result = pos 0;
  state = if cmd == io_write then record s { task = some current; signum = signo } else s;
  target = none;
}

-- `my_ioctl` of sec_signal_module.c, which sends the signal at once.
unfoldable pub sec_ioctl : State → ℕ → ℕ → Sent
sec_ioctl s current cmd =
    if cmd == io_write
    then record {
      result = pos 0;
      state = record s { task = some current; signum = signo };
      target = some current;
    }
    else record { result = einval; state = s; target = none }

-- `my_release`: the calling process is never NULL, so that `task` is kept.
unfoldable pub my_release : State → ℕ → State
my_release s current = s

module _ (k : Uaccess) where
  -- `my_write`; without a process to signal it returns IRQ_HANDLED, which is 1. What
  -- `send_sig_info` returns is only logged.
  unfoldable pub my_write : State → List ℕ → ℕ → Sent
  my_write s buf len =
      let (left, copied) = k.copy_from_user s.device_buffer buf (to_copy len) in
      if not (left == 0)
      then record { result = efault; state = record s { device_buffer = copied }; target = none }
      else let ended = set copied (safe_len (to_copy len)) 0 in
        elim s.task [
          | none ↦ record {
            result = pos 1;
            state = record s { device_buffer = ended };
            target = none;
          }
          | some p ↦ record {
            result = pos (to_copy len);
            state = record s { device_buffer = ended };
            target = some p;
          }
        ]
