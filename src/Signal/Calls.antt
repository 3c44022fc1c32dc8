-- ===== src/Signal/Calls.antt =====
-- Who receives the signals.
use kernel_driver_lab.Prelude.{
  ℕ, ℤ, pos, negsuc, einval, ◌≡◌, ap, ◌∙◌, refl, ◌==◌, if◌then◌else◌, Option, none, some, List, [],
  ◌∷◌, arith,
}
use kernel_driver_lab.Chardev
use kernel_driver_lab.Chardev.UserMemory.{Uaccess}
use kernel_driver_lab.Signal.{State, io_write, my_ioctl, sec_ioctl, my_release, my_write}

-- A call of the module, with the process that makes it.
pub data Call : Type 0 where
  ioctl : ℕ → ℕ → Call  -- the process, the command
  release : ℕ → Call
  write : ℕ → List ℕ → ℕ → Call  -- the process, its memory, the length

unfoldable pub after : Uaccess → State → Call → State
after k s (ioctl p cmd) = (my_ioctl s p cmd).state
after k s (release p) = my_release s p
after k s (write p buf len) = (my_write k s buf len).state

unfoldable pub run : Uaccess → State → List Call → State
run k s [] = s
run k s (c ∷ cs) = run k (after k s c) cs

-- The process of the last IO_WRITE, or else the one registered before.
abbrev pub last_registered : Option ℕ → List Call → Option ℕ
last_registered t [] = t
last_registered t (ioctl p cmd ∷ cs) = last_registered (if cmd == io_write then some p else t) cs
last_registered t (release p ∷ cs) = last_registered t cs
last_registered t (write p buf len ∷ cs) = last_registered t cs

-- What the write of a message does, without and with a process to signal.
abbrev pub answered : Option ℕ → ℤ → ℤ
answered none (pos n) = pos 1
answered (some p) (pos n) = pos n
answered t (negsuc n) = negsuc n

abbrev pub signalled : Option ℕ → ℤ → Option ℕ
signalled t (pos n) = t
signalled t (negsuc n) = none

pub write-task :
    (k : Uaccess) (s : State) (buf : List ℕ) (len : ℕ) → (my_write k s buf len).state.task ≡ s.task
unfolding my_write
write-task k s buf len = ground arith

ioctl-task :
    (s : State) (p cmd : ℕ)
    → (my_ioctl s p cmd).state.task ≡ (if cmd == io_write then some p else s.task)
unfolding my_ioctl
ioctl-task s p cmd = ground arith

run-task :
    (k : Uaccess) (s : State) (cs : List Call) → (run k s cs).task ≡ last_registered s.task cs
unfolding run after my_release
run-task k s [] = refl
run-task k s (ioctl p cmd ∷ cs) =
    run-task k (my_ioctl s p cmd).state cs ∙ ap (λ t. last_registered t cs) (ioctl-task s p cmd)
run-task k s (release p ∷ cs) = run-task k s cs
run-task k s (write p buf len ∷ cs) =
    run-task k (my_write k s buf len).state cs
    ∙ ap (λ t. last_registered t cs) (write-task k s buf len)

pub write_plain :
    (k : Uaccess) (s : State) (buf : List ℕ) (len : ℕ)
    → let w = my_write k s buf len in
      let plain = Chardev.my_write k s.device_buffer buf len in
      (w.state.device_buffer ≡ plain.1)
      × (w.result ≡ answered s.task plain.0)
      × (w.target ≡ signalled s.task plain.0)
unfolding my_write Chardev.my_write
write_plain k s buf len = ground arith

-- After any calls, a write leaves the buffer of the plain character device. If that would return an
-- error, so does this, and no signal is sent. Else the signal goes to the process of the last IO_WRITE
-- among the calls, also if that process has closed the device or others have written since, and the
-- result is the plain device's; if no process has registered, no signal is sent and the result is 1,
-- whatever was written.
pub signal_target :
    (k : Uaccess) (s : State) (cs : List Call) (buf : List ℕ) (len : ℕ)
    → let before = run k s cs in
      let w = my_write k before buf len in
      let plain = Chardev.my_write k before.device_buffer buf len in
      let t = last_registered s.task cs in
      (w.state.device_buffer ≡ plain.1)
      × (w.result ≡ answered t plain.0)
      × (w.target ≡ signalled t plain.0)
signal_target k s cs buf len =
    let before = run k s cs in
    let p = Chardev.my_write k before.device_buffer buf len in
    let (same_buffer, result, target) = write_plain k before buf len in
    let e = run-task k s cs in
    (same_buffer, result ∙ ap (λ t. answered t p.0) e, target ∙ ap (λ t. signalled t p.0) e)

-- The two modules register in the same way; the second one refuses other commands, and signals the
-- process that registers.
pub sec_ioctl_lem :
    (s : State) (p cmd : ℕ)
    → ((sec_ioctl s p cmd).state.task ≡ (my_ioctl s p cmd).state.task)
      × ((sec_ioctl s p cmd).result ≡ (if cmd == io_write then pos 0 else einval))
      × ((sec_ioctl s p cmd).target ≡ (if cmd == io_write then some p else none))
unfolding sec_ioctl my_ioctl
sec_ioctl_lem s p cmd = ground arith
