-- ===== src/Signal/Application/Ending.antt =====
-- After ctrl-C the program ends.
use kernel_driver_lab.Prelude.{
  ◌⊎◌, inl, inr, ℕ, suc, ◌+◌, ◌≤◌, ◌<◌, ◌≡◌, refl, is_negative, Bool, true, false, arith,
}
use kernel_driver_lab.Chardev.UserMemory.{Uaccess}
use kernel_driver_lab.Signal.Application.{
  Program, ioctl_userspace, sec_userland, Pc, before_open, registering, testing, waiting, resetting,
  closing, exited, killed, System, is_exited, MainMove, open_fails, opened, register, go_on, leave,
  spin, see, reset, close, OtherMove, ctrl_c, ctrl_c_again, write, ioctl, after_ioctl,
}

-- The steps that `main` has before it at most, after ctrl-C
abbrev pub rank : Pc → ℕ
rank before_open = 6
rank registering = 5
rank waiting = 4
rank resetting = 3
rank testing = 2
rank closing = 1
rank (exited r) = 0
rank killed = 0

-- Steps of `main`, as many as the number, and of others among them
pub data Steps (k : Uaccess) (a : Program) (p : ℕ) (s : System) : ℕ → System → Type 0 where
  here : Steps k a p s 0 s
  main : {n : ℕ} {t u : System} → Steps k a p s n t → MainMove a p t u → Steps k a p s (suc n) u
  other : {n : ℕ} {t u : System} → Steps k a p s n t → OtherMove k a t u → Steps k a p s n u

after_ioctl-rank : (a : Program) (failed : Bool) → rank (after_ioctl a failed) ≤ 2
after_ioctl-rank ioctl_userspace true = omega arith
after_ioctl-rank ioctl_userspace false = omega arith
after_ioctl-rank sec_userland failed = omega arith

MainMove-rank :
    {a : Program} {p : ℕ} {s t : System}
    → MainMove a p s t
    → s.done ≡ true
    → (t.done ≡ true) × (rank t.pc < rank s.pc)
MainMove-rank (open_fails at) d = (d, rw at (omega arith))
MainMove-rank (opened at) d = (d, rw at (omega arith))
MainMove-rank {a} {p} {s} (register at) d =
    (d, rw at (omega (arith, after_ioctl-rank a (is_negative (ioctl a s.driver p).result))))
MainMove-rank (go_on at more) d = absurd (ground arith)
MainMove-rank (leave at end) d = (d, rw at (omega arith))
MainMove-rank (spin at more none) d = absurd (ground arith)
MainMove-rank (see at seen) d = (d, rw at (omega arith))
MainMove-rank (reset at) d = (d, rw at (omega arith))
MainMove-rank (close at) d = (d, rw at (omega arith))

OtherMove-rank :
    {k : Uaccess} {a : Program} {s t : System}
    → OtherMove k a s t
    → s.done ≡ true
    → (t.done ≡ true) × (rank t.pc ≤ rank s.pc)
OtherMove-rank (ctrl_c running first) d = (refl, omega arith)
OtherMove-rank (ctrl_c_again running again) d = (d, omega arith)
OtherMove-rank (write buf len) d = (d, omega arith)

Steps-rank :
    {k : Uaccess} {a : Program} {p : ℕ} {s : System} {n : ℕ} {t : System}
    → s.done ≡ true
    → Steps k a p s n t
    → (t.done ≡ true) × (n + rank t.pc ≤ rank s.pc)
Steps-rank d here = (d, omega arith)
Steps-rank d (main st mv) =
    let (d', le) = Steps-rank d st in let (d'', lt) = MainMove-rank mv d' in (d'', omega arith)
Steps-rank d (other st mv) =
    let (d', le) = Steps-rank d st in let (d'', less) = OtherMove-rank mv d' in (d'', omega arith)

rank_bounded : (pc : Pc) → rank pc ≤ 6
rank_bounded before_open = omega arith
rank_bounded registering = omega arith
rank_bounded testing = omega arith
rank_bounded waiting = omega arith
rank_bounded resetting = omega arith
rank_bounded closing = omega arith
rank_bounded (exited r) = omega arith
rank_bounded killed = omega arith

can_move :
    (a : Program) (p : ℕ) (s : System) (pc : Pc)
    → s.pc ≡ pc
    → s.done ≡ true
    → (is_exited pc ≡ true) ⊎ ((t : System) × MainMove a p s t)
can_move a p s before_open at d = inr (record s { pc = registering }, opened at)
can_move a p s registering at d = inr (_, register at)
can_move a p s testing at d = inr (record s { pc = closing }, leave at d)
can_move a p s waiting at d = inr (record s { pc = resetting }, see at (ground arith))
can_move a p s resetting at d = inr (record s { pc = testing; check = false }, reset at)
can_move a p s closing at d = inr (_, close at)
can_move a p s (exited r) at d = inl refl
can_move a p s killed at d = inl refl

-- For both programs, from any state with `done` set, as the handler of ctrl-C sets it, whatever others
-- write or type meanwhile, and if every test of `done` and `check` reads them anew, which the source does
-- not ask for with `volatile`: `main` makes at most six more steps, and after any of them the process has
-- ended, by itself or by a second ctrl-C, or can make another step.
pub program_ends :
    {k : Uaccess} {a : Program} {p n : ℕ} {s t : System}
    → s.done ≡ true
    → Steps k a p s n t
    → (n ≤ 6) × ((is_exited t.pc ≡ true) ⊎ ((u : System) × MainMove a p t u))
program_ends {a} {p} {s} {t} d st =
    let (d', le) = Steps-rank d st in
    (omega (arith, rank_bounded s.pc), can_move a p t t.pc refl d')
