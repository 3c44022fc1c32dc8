-- ===== src/IrqSpinlock.antt =====
-- The thread and the timer of k_spinlocks_module-15/spinlock_with_interrupts.c. The timer's function
-- runs as an interrupt: on the thread's processor it starts only while interrupts are enabled there, and
-- the thread goes on when it has returned; on another processor the two run side by side.
pub mod Handler
mod Tests
use kernel_driver_lab.Prelude.{ℕ, ◌≡◌, Bool, true, false, not, ◌||◌}

pub record Shared : Type 0 where
  pub locked : Bool  -- spinlock_test
  pub enabled : Bool  -- interrupts on the thread's processor
  pub together : Bool  -- the thread is on the processor of the timer
  pub global_variable : ℕ
  pub armed : Bool  -- my_timer

-- Where `thread_function` stands.
pub data ThreadPc : Type 0 where
  looping : ThreadPc
  peeked : ThreadPc  -- after the first `spin_is_locked`
  entered : ThreadPc  -- after `spin_lock_irqsave`
  stored : ThreadPc
  logged : ℕ → ThreadPc  -- with the value that it logged
  stopped : ThreadPc

-- Where `timer_callback` stands.
pub data TimerPc : Type 0 where
  idle : TimerPc
  spinning : TimerPc  -- in `spin_lock`
  inside : TimerPc
  written : TimerPc
  printed : ℕ → TimerPc
  leaving : TimerPc  -- before `mod_timer`

-- A step of the thread; `spin_lock_irqsave` disables interrupts and takes the lock.
pub data ThreadMove (m : Shared) : ThreadPc → Shared → ThreadPc → Type 0 where
  stop : ThreadMove m looping m stopped
  peek : ThreadMove m looping m peeked
  spin_lock_irqsave :
      m.locked ≡ false → ThreadMove m peeked (record m { locked = true; enabled = false }) entered
  assign : ThreadMove m entered (record m { global_variable = 50 }) stored
  log : ThreadMove m stored m (logged m.global_variable)
  spin_unlock_irqrestore :
      {v : ℕ} → ThreadMove m (logged v) (record m { locked = false; enabled = true }) looping

abbrev pub is_idle : TimerPc → Bool
is_idle idle = true
is_idle _ = false

pub data TimerMove (m : Shared) : TimerPc → Shared → TimerPc → Type 0 where
  fire :
      (m.enabled || not m.together) ≡ true
      → m.armed ≡ true
      → TimerMove m idle (record m { armed = false }) spinning
  spin_lock : m.locked ≡ false → TimerMove m spinning (record m { locked = true }) inside
  assign_timer : TimerMove m inside (record m { global_variable = 100 }) written
  log_timer : TimerMove m written m (printed m.global_variable)
  spin_unlock : {v : ℕ} → TimerMove m (printed v) (record m { locked = false }) leaving
  mod_timer : TimerMove m leaving (record m { armed = true }) idle

pub record System : Type 0 where
  pub mem : Shared
  pub pc_thread : ThreadPc
  pub pc_timer : TimerPc

-- The thread does not run while the timer's function runs on its processor. The scheduler may move it
-- to another processor only then, and not between `spin_lock_irqsave` and its end.
pub data Step (s : System) : System → Type 0 where
  run_thread :
      {m : Shared} {p : ThreadPc}
      → (is_idle s.pc_timer || not s.mem.together) ≡ true
      → ThreadMove s.mem s.pc_thread m p
      → Step s (record s { mem = m; pc_thread = p })
  migrate :
      (together : Bool)
      → (is_idle s.pc_timer || not s.mem.together) ≡ true
      → s.mem.enabled ≡ true
      → Step s (record s { mem = record (s.mem) { together = together } })
  run_timer :
      {m : Shared} {p : TimerPc}
      → TimerMove s.mem s.pc_timer m p
      → Step s (record s { mem = m; pc_timer = p })

abbrev pub start : Bool → System
start together = record {
  mem = record {
    locked = false;
    enabled = true;
    together = together;
    global_variable = 0;
    armed = true;
  };
  pc_thread = looping;
  pc_timer = idle;
}

pub data Reach : System → Type 0 where
  here : (together : Bool) → Reach (start together)
  later : {s t : System} → Reach s → Step s t → Reach t
