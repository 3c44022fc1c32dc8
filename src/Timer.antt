-- ===== src/Timer.antt =====
-- The timers of k_timer_module-20, which arm themselves again, and their deletion when the module is
-- unloaded: timer_module.c calls `del_timer`, which does not wait for a function that is running, and
-- hrtimer_module.c calls `hrtimer_cancel`, which does.
pub mod Exit
mod Tests
use kernel_driver_lab.Prelude.{ℕ, suc, ◌≡◌, Bool, true, false}

pub record Shared : Type 0 where
  pub armed : Bool  -- my_timer
  pub timer_count : ℕ

-- Where the timer's function stands.
pub data HandlerPc : Type 0 where
  idle : HandlerPc
  fired : HandlerPc  -- before `timer_count++`
  counted : HandlerPc  -- before it arms the timer again

-- Whether the module is loaded.
pub data ModulePc : Type 0 where
  loaded : ModulePc
  unloaded : ModulePc

-- `timer_handler`, with `mod_timer`; and `timer_callback`, which returns HRTIMER_RESTART.
pub data HandlerMove (m : Shared) : HandlerPc → Shared → HandlerPc → Type 0 where
  fire : m.armed ≡ true → HandlerMove m idle (record m { armed = false }) fired
  count : HandlerMove m fired (record m { timer_count = suc m.timer_count }) counted
  rearm : HandlerMove m counted (record m { armed = true }) idle

-- `hello_exit` of timer_module.c: `del_timer`
pub data DelTimer (m : Shared) (h : HandlerPc) : ModulePc → Shared → ModulePc → Type 0 where
  del_timer : DelTimer m h loaded (record m { armed = false }) unloaded

-- `hello_exit` of hrtimer_module.c: `hrtimer_cancel` returns once the function does not run.
pub data CancelTimer (m : Shared) (h : HandlerPc) : ModulePc → Shared → ModulePc → Type 0 where
  hrtimer_cancel : h ≡ idle → CancelTimer m h loaded (record m { armed = false }) unloaded

pub record System : Type 0 where
  pub mem : Shared
  pub pc_handler : HandlerPc
  pub pc_module : ModulePc

-- A step of a module whose exit function deletes the timer by `Delete`.
pub data Step (Delete : Shared → HandlerPc → ModulePc → Shared → ModulePc → Type 0) (s : System)
    : System → Type 0 where
  run_handler :
      {m : Shared} {p : HandlerPc}
      → HandlerMove s.mem s.pc_handler m p
      → Step Delete s (record s { mem = m; pc_handler = p })
  run_exit :
      {m : Shared} {p : ModulePc}
      → Delete s.mem s.pc_handler s.pc_module m p
      → Step Delete s (record s { mem = m; pc_module = p })

pub data Steps (Delete : Shared → HandlerPc → ModulePc → Shared → ModulePc → Type 0) (s : System)
    : System → Type 0 where
  here : Steps Delete s s
  later : {t u : System} → Steps Delete s t → Step Delete t u → Steps Delete s u

-- `hello_init` has armed the timer.
abbrev pub start : System
start = record {
  mem = record { armed = true; timer_count = 0 };
  pc_handler = idle;
  pc_module = loaded;
}
