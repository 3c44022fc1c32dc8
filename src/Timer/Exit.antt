-- ===== src/Timer/Exit.antt =====
-- What is left of the timer after the module.
use kernel_driver_lab.Prelude.{ℕ, zero, suc, ◌≡◌, refl, Bool, true, false, not, ◌||◌, arith}
use kernel_driver_lab.Timer.{
  HandlerPc, ModulePc, idle, counted, loaded, unloaded, fire, count, rearm, DelTimer, del_timer,
  CancelTimer, hrtimer_cancel, System, Step, run_handler, run_exit, Steps, here, later, start,
}

abbrev pub is_idle : HandlerPc → Bool
is_idle idle = true
is_idle _ = false

abbrev pub is_loaded : ModulePc → Bool
is_loaded loaded = true
is_loaded unloaded = false

-- The timer will run its function, or is running it: at one of the two places, never at both.
pub record Inv (s : System) : Type 0 where
  pub alive : is_loaded s.pc_module ≡ true → s.mem.armed ≡ is_idle s.pc_handler
  pub over : is_loaded s.pc_module ≡ false → (s.mem.armed ≡ false) × (is_idle s.pc_handler ≡ true)

Step-Inv : {s t : System} → Step CancelTimer s t → Inv s → Inv t
Step-Inv (run_handler (fire h)) v = ground arith
Step-Inv (run_handler count) v = ground arith
Step-Inv (run_handler rearm) v = ground arith
Step-Inv (run_exit (hrtimer_cancel h)) v = ground arith

Steps-Inv : {s : System} → Steps CancelTimer start s → Inv s
Steps-Inv here = ground arith
Steps-Inv (later r m) = Step-Inv m (Steps-Inv r)

pending_loaded :
    {s : System} → Inv s → ((s.mem.armed || not (is_idle s.pc_handler)) ≡ is_loaded s.pc_module)
pending_loaded v = ground arith

-- Of hrtimer_module.c, in every state that is reached, in whatever order the timer and the unloading
-- run: the timer is armed or its function runs exactly while the module is loaded, so that it never
-- runs in an unloaded module, and never stops by itself in a loaded one.
pub hrtimer_safe :
    {s : System}
    → Steps CancelTimer start s
    → (s.mem.armed || not (is_idle s.pc_handler)) ≡ is_loaded s.pc_module
hrtimer_safe r = pending_loaded (Steps-Inv r)

-- The timer after `n` rounds, whose function has just run for the next.
abbrev pub caught : ℕ → System
caught n = record {
  mem = record { armed = false; timer_count = suc n };
  pc_handler = counted;
  pc_module = loaded;
}

-- The module is gone, its timer armed, after `n` rounds.
abbrev pub orphaned : ℕ → System
orphaned n = record {
  mem = record { armed = true; timer_count = n };
  pc_handler = idle;
  pc_module = unloaded;
}

rounds :
    (n : ℕ) → Steps DelTimer start (record start { mem = record { armed = true; timer_count = n } })
rounds zero = here
rounds (suc n) =
    later (later (later (rounds n) (run_handler (fire refl))) (run_handler count))
      (run_handler rearm)

-- `k` rounds more
abbrev pub more : ℕ → ℕ → ℕ
more zero n = n
more (suc k) n = suc (more k n)

orphan_runs : (n k : ℕ) → Steps DelTimer (orphaned n) (orphaned (more k n))
orphan_runs n zero = here
orphan_runs n (suc k) =
    later (later (later (orphan_runs n k) (run_handler (fire refl))) (run_handler count))
      (run_handler rearm)

-- Of timer_module.c: after any number of rounds the unloading may find the timer's function running,
-- and then deletes a timer that is not armed; the function arms it again, and in the module that is
-- gone it runs any number of rounds more.
pub timer_survives :
    (n k : ℕ)
    → Steps DelTimer start (caught n)
      × Steps DelTimer (caught n) (orphaned (suc n))
      × Steps DelTimer (orphaned (suc n)) (orphaned (more k (suc n)))
timer_survives n k = (
  later (later (rounds n) (run_handler (fire refl))) (run_handler count),
  later (later here (run_exit del_timer)) (run_handler rearm),
  orphan_runs (suc n) k,
)
