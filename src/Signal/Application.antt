-- ===== src/Signal/Application.antt =====
-- The programs of user space that register with the modules and wait for their signal:
-- k_signal_module-19/ioctl_userspace_file.c with signal_module.c, and
-- k_signal_module-19/sec_userland_signal.c with sec_signal_module.c.
pub mod Ending
pub mod Stray
mod Tests
use kernel_driver_lab.Prelude.{
  ℕ, ◌≡◌, ◌≢◌, ℤ, pos, negsuc, is_negative, Bool, true, false, not, ◌&&◌, ◌||◌, if◌then◌else◌,
  Option, none, some, List,
}
use kernel_driver_lab.Chardev
use kernel_driver_lab.Chardev.UserMemory.{Uaccess}
use kernel_driver_lab.Signal.{State, Sent, io_write, my_ioctl, sec_ioctl, my_release, my_write}

pub data Program : Type 0 where
  ioctl_userspace sec_userland : Program

-- Where `main` stands, once the handlers are installed.
pub data Pc : Type 0 where
  before_open : Pc  -- before `open`
  registering : Pc  -- before `ioctl`
  testing : Pc  -- the test of the outer loop
  waiting : Pc  -- the inner loop, which spins
  resetting : Pc  -- before `check = 0`
  closing : Pc  -- before the last `close`
  exited : ℤ → Pc
  killed : Pc  -- by a second ctrl-C

-- The module, and the variables of the program
pub record System : Type 0 where
  pub driver : State
  pub pc : Pc
  pub done : Bool
  pub check : Bool

-- The handler of SIGNO, in the process `p`: it sets `check`, to a value that is not 0, unless the
-- process has exited.
abbrev pub is_exited : Pc → Bool
is_exited before_open = false
is_exited registering = false
is_exited testing = false
is_exited waiting = false
is_exited resetting = false
is_exited closing = false
is_exited (exited r) = true
is_exited killed = true

-- `ioctl(fd, IO_WRITE, my_value)` of the process `p`
abbrev pub ioctl : Program → State → ℕ → Sent
ioctl ioctl_userspace s p = my_ioctl s p io_write
ioctl sec_userland s p = sec_ioctl s p io_write

-- Where `main` goes on after the ioctl; one program exits where it fails, the other one does not.
abbrev pub after_ioctl : Program → Bool → Pc
after_ioctl ioctl_userspace failed = if failed then exited (pos 1) else testing
after_ioctl sec_userland failed = testing

-- A signal that the module sends at once to the process that registers reaches its handler.
abbrev pub is_sent : Option ℕ → Bool
is_sent none = false
is_sent (some p) = true

-- A step of `main`
pub data MainMove (a : Program) (p : ℕ) (s : System) : System → Type 0 where
  open_fails : s.pc ≡ before_open → MainMove a p s (record s { pc = exited (negsuc 0) })
  opened : s.pc ≡ before_open → MainMove a p s (record s { pc = registering })
  register :
      s.pc ≡ registering
      → MainMove a p s (record s {
        driver = (ioctl a s.driver p).state;
        pc = after_ioctl a (is_negative (ioctl a s.driver p).result);
        check = s.check || is_sent (ioctl a s.driver p).target;
      })
  go_on : s.pc ≡ testing → s.done ≡ false → MainMove a p s (record s { pc = waiting })
  leave : s.pc ≡ testing → s.done ≡ true → MainMove a p s (record s { pc = closing })
  spin : s.pc ≡ waiting → s.done ≡ false → s.check ≡ false → MainMove a p s s
  see : s.pc ≡ waiting → (s.done || s.check) ≡ true → MainMove a p s (record s { pc = resetting })
  reset : s.pc ≡ resetting → MainMove a p s (record s { pc = testing; check = false })
  close :
      s.pc ≡ closing
      → MainMove a p s (record s { driver = my_release s.driver p; pc = exited (pos 0) })

-- A write to the device: sec_signal_module.c signals nobody then.
abbrev pub write_file : Uaccess → Program → State → List ℕ → ℕ → Sent
write_file k ioctl_userspace s buf len = my_write k s buf len
write_file k sec_userland s buf len =
    let (result, buffer) = Chardev.my_write k s.device_buffer buf len in
    record { result = result; state = record s { device_buffer = buffer }; target = none }

-- After a write to the device, with the handler of the signal in the program
abbrev pub written : Uaccess → Program → System → List ℕ → ℕ → System
written k a s buf len =
    let sent = write_file k a s.driver buf len in
    record s {
      driver = sent.state;
      check = s.check || (is_sent sent.target && not (is_exited s.pc));
    }

-- Whether the handler of ctrl-C is in place only for the first signal: one program asks for
-- SA_RESETHAND, and the kernel then ends it at the next ctrl-C.
abbrev pub resets_handler : Program → Bool
resets_handler ioctl_userspace = true
resets_handler sec_userland = false

-- What others do: somebody types ctrl-C, or a process writes to the device. A process that is killed
-- has its file closed by the kernel, and `my_release` leaves the module as it is.
pub data OtherMove (k : Uaccess) (a : Program) (s : System) : System → Type 0 where
  ctrl_c :
      is_exited s.pc ≡ false
      → (resets_handler a && s.done) ≡ false
      → OtherMove k a s (record s { done = true })
  ctrl_c_again :
      is_exited s.pc ≡ false
      → (resets_handler a && s.done) ≡ true
      → OtherMove k a s (record s { pc = killed })
  write : (buf : List ℕ) (len : ℕ) → OtherMove k a s (written k a s buf len)

abbrev pub start : State → System
start driver = record { driver = driver; pc = before_open; done = false; check = false }
