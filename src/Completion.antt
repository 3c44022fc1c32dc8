-- ===== src/Completion.antt =====
-- The thread of k_completion_module-21/completion_module.c, the reads that wake it and the unloading
-- that is to end it, a shared access at a time. Reads overlap, and are alike, so that only their number at
-- each place is kept. A module is not unloaded while a file of it is open.
pub mod Protocol
mod Tests
use kernel_driver_lab.Prelude.{ℕ, suc, ◌+◌, ◌≤◌, ◌≡◌, ◌≢◌}

pub record Shared : Type 0 where
  pub wait_flag : ℕ
  pub done : ℕ  -- completion_work: how many waits it lets through

-- Where `wait_function` stands.
pub data ThreadPc : Type 0 where
  waiting : ThreadPc  -- in `wait_for_completion`
  woken : ThreadPc  -- before the test of `wait_flag`
  going_on : ThreadPc  -- before the reset of `wait_flag`, to wait again
  ending : ThreadPc  -- before the reset of `wait_flag`, to return
  ended : ThreadPc

-- Where `hello_exit` stands
pub data ExitPc : Type 0 where
  outside : ExitPc
  exit_asks : ExitPc  -- before `completion_done`
  exit_completes : ExitPc  -- before `complete`
  unloaded : ExitPc

pub data ThreadMove (m : Shared) : ThreadPc → Shared → ThreadPc → Type 0 where
  wake : {n : ℕ} → m.done ≡ suc n → ThreadMove m waiting (record m { done = n }) woken
  see_exit : m.wait_flag ≡ 2 → ThreadMove m woken m ending
  see_read : m.wait_flag ≢ 2 → ThreadMove m woken m going_on
  wait_again : ThreadMove m going_on (record m { wait_flag = 0 }) waiting
  leave : ThreadMove m ending (record m { wait_flag = 0 }) ended

-- The reads that have copied their data: how many are before `completion_done`, and how many before
-- `complete`.
pub record Readers : Type 0 where
  pub asking : ℕ
  pub completing : ℕ

-- A step of `my_read`, once its data is copied
pub data ReadMove (m : Shared) (q : Readers) : Shared → Readers → Type 0 where
  read_sets : ReadMove m q (record m { wait_flag = 1 }) (record q { asking = suc q.asking })
  read_finds : {n : ℕ} → q.asking ≡ suc n → m.done ≢ 0 → ReadMove m q m (record q { asking = n })
  read_finds_none :
      {n : ℕ}
      → q.asking ≡ suc n
      → m.done ≡ 0
      → ReadMove m q m (record { asking = n; completing = suc q.completing })
  read_wakes :
      {n : ℕ}
      → q.completing ≡ suc n
      → ReadMove m q (record m { done = suc m.done }) (record q { completing = n })

-- `hello_exit`: it does not wait for the thread
pub data ExitMove (m : Shared) : ExitPc → Shared → ExitPc → Type 0 where
  exit_sets : ExitMove m outside (record m { wait_flag = 2 }) exit_asks
  exit_finds : m.done ≢ 0 → ExitMove m exit_asks m unloaded
  exit_finds_none : m.done ≡ 0 → ExitMove m exit_asks m exit_completes
  exit_wakes : ExitMove m exit_completes (record m { done = suc m.done }) unloaded

pub record System : Type 0 where
  pub mem : Shared
  pub pc_thread : ThreadPc
  pub readers : Readers
  pub pc_exit : ExitPc

-- At most `limit` reads are under way at a time.
pub data Step (limit : ℕ) (s : System) : System → Type 0 where
  run_thread :
      {m : Shared} {p : ThreadPc}
      → ThreadMove s.mem s.pc_thread m p
      → Step limit s (record s { mem = m; pc_thread = p })
  run_read :
      {m : Shared} {q : Readers}
      → s.pc_exit ≡ outside
      → q.asking + q.completing ≤ limit
      → ReadMove s.mem s.readers m q
      → Step limit s (record s { mem = m; readers = q })
  run_exit :
      {m : Shared} {p : ExitPc}
      → s.readers.asking ≡ 0
      → s.readers.completing ≡ 0
      → ExitMove s.mem s.pc_exit m p
      → Step limit s (record s { mem = m; pc_exit = p })

abbrev pub no_readers : Readers
no_readers = record { asking = 0; completing = 0 }

abbrev pub start : System
start = record {
  mem = record { wait_flag = 0; done = 0 };
  pc_thread = waiting;
  readers = no_readers;
  pc_exit = outside;
}

-- What a system may come to.
pub data Steps (limit : ℕ) (s : System) : System → Type 0 where
  here : Steps limit s s
  later : {t u : System} → Steps limit s t → Step limit t u → Steps limit s u
