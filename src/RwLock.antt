-- ===== src/RwLock.antt =====
-- The three threads of k_spinlocks_module-15/rwspinlock_module.c, a shared access at a time, over
-- the reader-writer lock and the variable that it protects.
pub mod Exclusion
mod Tests
use kernel_driver_lab.Prelude.{ℕ, suc, ◌+◌, ◌-◌, ◌%◌, ◌^◌, ◌≡◌, Bool, true, false}

-- The lock, the variable, and how many sums the writer has stored, which the source does not keep.
pub record Shared : Type 0 where
  pub writer : Bool  -- my_lock is held by write_lock
  pub readers : ℕ  -- how often my_lock is held by read_lock
  pub global_variable : ℕ  -- int, as its 32 bits
  pub stores : ℕ

-- Where `thread_function` stands.
pub data WriterPc : Type 0 where
  looping : WriterPc  -- the test of `kthread_should_stop`
  waiting : WriterPc  -- in `write_lock`
  entered : WriterPc  -- before the sum
  loaded : ℕ → WriterPc  -- between its load and its store
  stored : WriterPc  -- before the value is logged
  logged : ℕ → WriterPc  -- after it
  stopped : WriterPc

-- Where `thread_function1` or `thread_function2` stands.
pub data ReaderPc : Type 0 where
  idle : ReaderPc  -- the test of `kthread_should_stop`
  queued : ReaderPc  -- in `read_lock`
  inside : ReaderPc  -- before the value is logged
  printed : ℕ → ReaderPc  -- after it
  ended : ReaderPc

-- A step of the writer. `write_lock` returns only while nobody holds the lock.
pub data Write (m : Shared) : WriterPc → Shared → WriterPc → Type 0 where
  stop : Write m looping m stopped
  begin : Write m looping m waiting
  write_lock :
      m.writer ≡ false → m.readers ≡ 0 → Write m waiting (record m { writer = true }) entered
  load : Write m entered m (loaded m.global_variable)
  store :
      {v : ℕ}
      → Write m
          (loaded v)
          (record m { global_variable = (v + 10) % 2 ^ 32; stores = suc m.stores })
          stored
  log : Write m stored m (logged m.global_variable)
  write_unlock : {v : ℕ} → Write m (logged v) (record m { writer = false }) looping

-- A step of a reader. `read_lock` returns only while no writer holds the lock.
pub data Read (m : Shared) : ReaderPc → Shared → ReaderPc → Type 0 where
  finish : Read m idle m ended
  start_round : Read m idle m queued
  read_lock : m.writer ≡ false → Read m queued (record m { readers = suc m.readers }) inside
  print : Read m inside m (printed m.global_variable)
  read_unlock : {v : ℕ} → Read m (printed v) (record m { readers = m.readers - 1 }) idle

-- Between the return of `write_lock` and `write_unlock`.
abbrev pub writing : WriterPc → Bool
writing looping = false
writing waiting = false
writing stopped = false
writing entered = true
writing (loaded v) = true
writing stored = true
writing (logged v) = true

-- Whether a reader is between the return of `read_lock` and `read_unlock`, as a number.
abbrev pub reading : ReaderPc → ℕ
reading idle = 0
reading queued = 0
reading ended = 0
reading inside = 1
reading (printed v) = 1

pub record System : Type 0 where
  pub mem : Shared
  pub pc_writer : WriterPc
  pub pc_first : ReaderPc
  pub pc_second : ReaderPc

-- Any of the threads may run next.
pub data Step (s : System) : System → Type 0 where
  run_writer :
      {m : Shared} {p : WriterPc}
      → Write s.mem s.pc_writer m p
      → Step s (record s { mem = m; pc_writer = p })
  run_first :
      {m : Shared} {p : ReaderPc}
      → Read s.mem s.pc_first m p
      → Step s (record s { mem = m; pc_first = p })
  run_second :
      {m : Shared} {p : ReaderPc}
      → Read s.mem s.pc_second m p
      → Step s (record s { mem = m; pc_second = p })

abbrev pub start : System
start = record {
  mem = record { writer = false; readers = 0; global_variable = 0; stores = 0 };
  pc_writer = looping;
  pc_first = idle;
  pc_second = idle;
}

pub data Reach : System → Type 0 where
  here : Reach start
  later : {s t : System} → Reach s → Step s t → Reach t
