-- ===== src/Signal/Application/Stray.antt =====
-- A program that has ended stays registered, and is signalled by the writes that follow.
use kernel_driver_lab.Prelude.{
  ℕ, ◌≡◌, ap, ap₂, ◌∙◌, pos, negsuc, Bool, true, false, some, List, arith,
}
use kernel_driver_lab.Chardev
use kernel_driver_lab.Chardev.UserMemory.{Uaccess}
use kernel_driver_lab.Signal.{State, my_ioctl, my_release, my_write}
use kernel_driver_lab.Signal.Calls.{signalled, write-task, write_plain}
use kernel_driver_lab.Signal.Application.{
  ioctl_userspace, Pc, before_open, registering, testing, waiting, resetting, closing, exited,
  killed, System, MainMove, open_fails, opened, register, go_on, leave, spin, see, reset, close,
  OtherMove, ctrl_c, ctrl_c_again, write, start,
}

-- What has come about after the start of ioctl_userspace_file.c as process `p`
pub data Reach (k : Uaccess) (p : ℕ) (driver : State) : System → Type 0 where
  here : Reach k p driver (start driver)
  main : {s t : System} → Reach k p driver s → MainMove ioctl_userspace p s t → Reach k p driver t
  other : {s t : System} → Reach k p driver s → OtherMove k ioctl_userspace s t → Reach k p driver t

-- The program has come past its ioctl.
abbrev pub registered : Pc → Bool
registered before_open = false
registered registering = false
registered testing = true
registered waiting = true
registered resetting = true
registered closing = true
registered (exited (pos r)) = true
registered (exited (negsuc r)) = false
registered killed = false

abbrev IsKept : ℕ → System → Type 0
IsKept p s = registered s.pc ≡ true → s.driver.task ≡ some p

Main-IsKept : {p : ℕ} {s t : System} → MainMove ioctl_userspace p s t → IsKept p s → IsKept p t
unfolding my_ioctl my_release
Main-IsKept (open_fails at) v = ground arith
Main-IsKept (opened at) v = ground arith
Main-IsKept (register at) v = ground arith
Main-IsKept (go_on at more) v = ground arith
Main-IsKept (leave at end) v = ground arith
Main-IsKept (spin at more unset) v = ground arith
Main-IsKept (see at seen) v = ground arith
Main-IsKept (reset at) v = ground arith
Main-IsKept (close at) v = ground arith

Other-IsKept :
    {k : Uaccess} {p : ℕ} {s t : System} → OtherMove k ioctl_userspace s t → IsKept p s → IsKept p t
Other-IsKept (ctrl_c running first) v = v
Other-IsKept (ctrl_c_again running again) v = λ r. ground arith
Other-IsKept {k} {s = s} (write buf len) v = λ r. write-task k s.driver buf len ∙ v r

Reach-IsKept : {k : Uaccess} {p : ℕ} {driver : State} {s : System} → Reach k p driver s → IsKept p s
Reach-IsKept here = λ r. cc
Reach-IsKept (main r mv) = Main-IsKept mv (Reach-IsKept r)
Reach-IsKept (other r mv) = Other-IsKept mv (Reach-IsKept r)

-- After ioctl_userspace_file.c has registered its process, closed the device and returned from `main`,
-- and as long as no other process has registered: the module still holds the pointer to the task of the
-- process that has ended, and every write that the plain character device would accept hands this
-- pointer to `send_sig_info`. The module has taken no reference to the task, which the kernel may have
-- freed by then; what the call does with the pointer is not stated.
pub ended_signalled :
    {k : Uaccess} {p : ℕ} {driver : State} {s : System}
    → Reach k p driver s
    → s.pc ≡ exited (pos 0)
    → (buf : List ℕ) (len count : ℕ)
    → (Chardev.my_write k s.driver.device_buffer buf len).0 ≡ pos count
    → (s.driver.task ≡ some p) × ((my_write k s.driver buf len).target ≡ some p)
ended_signalled {k} {p} {s} r at buf len count plain =
    let kept : s.driver.task ≡ some p = Reach-IsKept r (ap registered at) in
    let (same, result, target) = write_plain k s.driver buf len in
    (kept, target ∙ ap₂ signalled kept plain)
