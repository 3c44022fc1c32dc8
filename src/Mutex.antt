-- ===== src/Mutex.antt =====
-- The two threads of k_mutex_module-12/mutex_module.c, which count in one variable under a mutex and
-- log it, a shared access at a time.
pub mod Lines
mod Tests
use kernel_driver_lab.Prelude.{ℕ, suc, ◌+◌, ◌%◌, ◌^◌, ◌≡◌, Bool, true, false, List, [], ◌∷◌}

-- The mutex and the counter; and the numbers that the threads have logged, the last one first.
pub record Shared : Type 0 where
  pub locked : Bool  -- examp_mutex
  pub read_count : ℕ  -- uint32_t
  pub log : List ℕ

-- Where `kthread_function` or `kthread_function1` stands.
pub data Pc : Type 0 where
  looping : Pc  -- the test of `kthread_should_stop`
  waiting : Pc  -- in `mutex_lock`
  entered : Pc
  loaded : ℕ → Pc  -- between its load and its store
  stored : Pc
  logged : Pc
  stopped : Pc

pub data Move (m : Shared) : Pc → Shared → Pc → Type 0 where
  stop : Move m looping m stopped
  begin : Move m looping m waiting
  mutex_lock : m.locked ≡ false → Move m waiting (record m { locked = true }) entered
  load : Move m entered m (loaded m.read_count)
  store : {v : ℕ} → Move m (loaded v) (record m { read_count = (v + 1) % 2 ^ 32 }) stored
  print : Move m stored (record m { log = m.read_count ∷ m.log }) logged
  mutex_unlock : Move m logged (record m { locked = false }) looping

pub record System : Type 0 where
  pub mem : Shared
  pub pc_one : Pc
  pub pc_two : Pc

pub data Step (s : System) : System → Type 0 where
  run_one :
      {m : Shared} {p : Pc} → Move s.mem s.pc_one m p → Step s (record s { mem = m; pc_one = p })
  run_two :
      {m : Shared} {p : Pc} → Move s.mem s.pc_two m p → Step s (record s { mem = m; pc_two = p })

abbrev pub start : System
start = record {
  mem = record { locked = false; read_count = 0; log = [] };
  pc_one = looping;
  pc_two = looping;
}

pub data Reach : System → Type 0 where
  here : Reach start
  later : {s t : System} → Reach s → Step s t → Reach t
