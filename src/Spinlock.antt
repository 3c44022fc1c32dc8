-- ===== src/Spinlock.antt =====
-- The two threads of k_spinlocks_module-15/spinlock_module.c, a shared access at a time, over the
-- spinlock and the counter that it protects.
pub mod Exclusion
pub mod Progress
mod Tests
use kernel_driver_lab.Prelude.{ℕ, suc, ◌+◌, ◌%◌, ◌^◌, ◌≡◌, Bool, true, false, ◌&&◌, ◌||◌}

-- The lock, the counter, and how many increments the threads have stored, which the source does
-- not keep.
pub record Shared : Type 0 where
  pub locked : Bool  -- spinlock_test
  pub global_variable : ℕ  -- int, as its 32 bits
  pub stores : ℕ

pub data Thread : Type 0 where
  one two : Thread  -- thread_function, thread_function1

-- Where a thread stands.
pub data Pc : Type 0 where
  looping : Pc  -- the test of `kthread_should_stop`
  peeking : Pc  -- the first `spin_is_locked` of thread one
  waiting : Pc  -- in `spin_lock`
  entered : Pc  -- before the increment
  loaded : ℕ → Pc  -- between its load and its store
  stored : Pc
  checked : Pc  -- after the second `spin_is_locked` of thread one
  stopped : Pc

-- A step of a thread. `spin_lock` returns with the lock taken, and only while it is free.
-- `kthread_should_stop` may answer either way.
pub data Move (m : Shared) : Thread → Pc → Shared → Pc → Type 0 where
  stop : {t : Thread} → Move m t looping m stopped
  begin_one : Move m one looping m peeking
  peek : Move m one peeking m waiting
  begin_two : Move m two looping m waiting
  lock : {t : Thread} → m.locked ≡ false → Move m t waiting (record m { locked = true }) entered
  load : {t : Thread} → Move m t entered m (loaded m.global_variable)
  store :
      {t : Thread} {v : ℕ}
      → Move m t
          (loaded v)
          (record m { global_variable = (v + 1) % 2 ^ 32; stores = suc m.stores })
          stored
  check : Move m one stored m checked
  unlock_one : Move m one checked (record m { locked = false }) looping
  unlock_two : Move m two stored (record m { locked = false }) looping

-- Between the return of `spin_lock` and `spin_unlock`.
abbrev pub critical : Pc → Bool
critical looping = false
critical peeking = false
critical waiting = false
critical stopped = false
critical entered = true
critical (loaded v) = true
critical stored = true
critical checked = true

pub record System : Type 0 where
  pub mem : Shared
  pub pc_one : Pc
  pub pc_two : Pc

-- Either thread may run next.
pub data Step (s : System) : System → Type 0 where
  run_one :
      {m : Shared} {p : Pc}
      → Move s.mem one s.pc_one m p
      → Step s (record s { mem = m; pc_one = p })
  run_two :
      {m : Shared} {p : Pc}
      → Move s.mem two s.pc_two m p
      → Step s (record s { mem = m; pc_two = p })

abbrev pub start : System
start = record {
  mem = record { locked = false; global_variable = 0; stores = 0 };
  pc_one = looping;
  pc_two = looping;
}

pub data Reach : System → Type 0 where
  here : Reach start
  later : {s t : System} → Reach s → Step s t → Reach t
