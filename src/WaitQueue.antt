-- ===== src/WaitQueue.antt =====
-- The thread of k_wait_queues-10/wait_queue_module.c, the reads that wake it and the unloading that is
-- to end it, a shared access at a time. One reader at a time is modelled, and none while the module is
-- unloaded, as a file that is open keeps the module.
pub mod Counting
mod Tests
use kernel_driver_lab.Prelude.{ℕ, suc, ◌+◌, ◌%◌, ◌^◌, ◌≡◌, ◌≢◌}

-- The variables; and what the source does not keep: how many reads have set the flag, and how often
-- the thread has counted.
pub record Shared : Type 0 where
  pub wait_queue_flag : ℕ
  pub read_count : ℕ  -- uint32_t
  pub reads : ℕ
  pub counts : ℕ

-- Where `wait_function` stands.
pub data ThreadPc : Type 0 where
  waiting : ThreadPc  -- in `wait_event_interruptible`
  woken : ThreadPc  -- before the test of the flag
  counting : ThreadPc  -- before `++read_count`
  resetting : ThreadPc  -- before the reset of the flag
  ended : ThreadPc

pub data ModulePc : Type 0 where
  loaded : ModulePc
  exiting : ModulePc  -- the flag is set, before `wake_up_interruptible`
  unloaded : ModulePc

pub data ThreadMove (m : Shared) : ThreadPc → Shared → ThreadPc → Type 0 where
  wake : m.wait_queue_flag ≢ 0 → ThreadMove m waiting m woken
  see_exit : m.wait_queue_flag ≡ 2 → ThreadMove m woken m ended
  see_read : m.wait_queue_flag ≢ 2 → ThreadMove m woken m counting
  count :
      ThreadMove m counting
        (record m { read_count = (m.read_count + 1) % 2 ^ 32; counts = suc m.counts })
        resetting
  reset : ThreadMove m resetting (record m { wait_queue_flag = 0 }) waiting

-- `my_read`, once its data is copied
pub data ReadMove (m : Shared) : ModulePc → Shared → ModulePc → Type 0 where
  read_sets : ReadMove m loaded (record m { wait_queue_flag = 1; reads = suc m.reads }) loaded

-- `hello_exit`: it does not wait for the thread.
pub data ExitMove (m : Shared) : ModulePc → Shared → ModulePc → Type 0 where
  exit_sets : ExitMove m loaded (record m { wait_queue_flag = 2 }) exiting
  exit_wakes : ExitMove m exiting m unloaded

pub record System : Type 0 where
  pub mem : Shared
  pub pc_thread : ThreadPc
  pub pc_module : ModulePc

pub data Step (s : System) : System → Type 0 where
  run_thread :
      {m : Shared} {p : ThreadPc}
      → ThreadMove s.mem s.pc_thread m p
      → Step s (record s { mem = m; pc_thread = p })
  run_read :
      {m : Shared} {p : ModulePc}
      → ReadMove s.mem s.pc_module m p
      → Step s (record s { mem = m; pc_module = p })
  run_exit :
      {m : Shared} {p : ModulePc}
      → ExitMove s.mem s.pc_module m p
      → Step s (record s { mem = m; pc_module = p })

abbrev pub start : System
start = record {
  mem = record { wait_queue_flag = 0; read_count = 0; reads = 0; counts = 0 };
  pc_thread = waiting;
  pc_module = loaded;
}

pub data Reach : System → Type 0 where
  here : Reach start
  later : {s t : System} → Reach s → Step s t → Reach t
