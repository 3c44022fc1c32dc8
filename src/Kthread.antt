-- ===== src/Kthread.antt =====
-- The thread that counts beside the interrupts, and `kthread_stop` in the exit function: linked_list.c,
-- tasklet_module.c and the three modules of k_workqueues_module-16 have the same `thread_function`.
pub mod Stopping
mod Tests
use kernel_driver_lab.Prelude.{ℕ, suc, ◌+◌, ◌%◌, ◌^◌, ◌≡◌, Bool, true, false}

-- The counter, the kernel's request to stop, and how many rounds the thread has counted, which the
-- source does not keep.
pub record Shared : Type 0 where
  pub global_variable : ℕ  -- int, as its 32 bits
  pub should_stop : Bool
  pub rounds : ℕ

-- Where `thread_function` stands.
pub data ThreadPc : Type 0 where
  testing : ThreadPc  -- before `kthread_should_stop`
  adding : ThreadPc  -- before `global_variable++`
  sleeping : ThreadPc  -- in `msleep`, which a request to stop does not end
  printing : ThreadPc
  ended : ThreadPc

pub data ThreadMove (m : Shared) : ThreadPc → Shared → ThreadPc → Type 0 where
  go_on : m.should_stop ≡ false → ThreadMove m testing m adding
  leave : m.should_stop ≡ true → ThreadMove m testing m ended
  add :
      ThreadMove m adding
        (record m { global_variable = (m.global_variable + 1) % 2 ^ 32; rounds = suc m.rounds })
        sleeping
  wake : ThreadMove m sleeping m printing
  print : ThreadMove m printing m testing

-- Where `hello_exit` stands, around `kthread_stop`.
pub data ExitPc : Type 0 where
  loaded : ExitPc
  stopping : ExitPc  -- in `kthread_stop`, which waits for the thread
  stopped : ExitPc

pub data ExitMove (m : Shared) (p : ThreadPc) : ExitPc → Shared → ExitPc → Type 0 where
  ask : ExitMove m p loaded (record m { should_stop = true }) stopping
  join : p ≡ ended → ExitMove m p stopping m stopped

pub record System : Type 0 where
  pub mem : Shared
  pub pc_thread : ThreadPc
  pub pc_exit : ExitPc

pub data Step (s : System) : System → Type 0 where
  run_thread :
      {m : Shared} {p : ThreadPc}
      → ThreadMove s.mem s.pc_thread m p
      → Step s (record s { mem = m; pc_thread = p })
  run_exit :
      {m : Shared} {p : ExitPc}
      → ExitMove s.mem s.pc_thread s.pc_exit m p
      → Step s (record s { mem = m; pc_exit = p })

abbrev pub start : System
start = record {
  mem = record { global_variable = 0; should_stop = false; rounds = 0 };
  pc_thread = testing;
  pc_exit = loaded;
}

pub data Reach : System → Type 0 where
  here : Reach start
  later : {s t : System} → Reach s → Step s t → Reach t
