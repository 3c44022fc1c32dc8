-- ===== src/Seqlock.antt =====
-- The threads of k_seqlock_module-24/seqlock_module.c: a writer under `write_seqlock`, and a reader
-- that repeats while `read_seqretry` asks it to. `sequence` counts all changes of the sequence number,
-- which has 32 bits: what the lock holds, and what the reader keeps in `seq_no`, is it modulo 2^32.
pub mod Consistent
mod Tests
use kernel_driver_lab.Prelude.{ℕ, suc, ◌+◌, ◌%◌, ◌^◌, ◌≡◌, ◌≢◌, Bool, true, false}

-- The lock, the variable, and how many sums were stored, which the source does not keep.
pub record Shared : Type 0 where
  pub locked : Bool
  pub sequence : ℕ  -- the lock holds it modulo 2^32
  pub seq_variable : ℕ  -- unsigned long
  pub stores : ℕ

-- Where `thread_function` stands.
pub data WriterPc : Type 0 where
  looping : WriterPc
  entered : WriterPc  -- before the increment
  loaded : ℕ → WriterPc  -- between its load and its store
  stored : WriterPc  -- before the value is logged
  logged : ℕ → WriterPc  -- after it
  stopped : WriterPc

-- Where `thread_function1` stands.
pub data ReaderPc : Type 0 where
  idle : ReaderPc
  begun : ℕ → ReaderPc  -- after `read_seqbegin`, with the count whose lower 32 bits are `seq_no`
  printed : ℕ → ℕ → ReaderPc  -- with that count and the value that it logged
  ended : ReaderPc

pub data Write (m : Shared) : WriterPc → Shared → WriterPc → Type 0 where
  stop : Write m looping m stopped
  write_seqlock :
      m.locked ≡ false
      → Write m looping (record m { locked = true; sequence = suc m.sequence }) entered
  load : Write m entered m (loaded m.seq_variable)
  store :
      {v : ℕ}
      → Write m
          (loaded v)
          (record m { seq_variable = (v + 1) % 2 ^ 64; stores = suc m.stores })
          stored
  log : Write m stored m (logged m.seq_variable)
  write_sequnlock :
      {v : ℕ} → Write m (logged v) (record m { locked = false; sequence = suc m.sequence }) looping

-- `read_seqbegin` returns an even number only; the parity is that of the lower 32 bits.
pub data Read (m : Shared) : ReaderPc → Shared → ReaderPc → Type 0 where
  finish : Read m idle m ended
  read_seqbegin : m.sequence % 2 ≡ 0 → Read m idle m (begun m.sequence)
  print : {n : ℕ} → Read m (begun n) m (printed n m.seq_variable)
  read_seqretry :
      {n v : ℕ}
      → m.sequence % 2 ^ 32 ≢ n % 2 ^ 32
      → m.sequence % 2 ≡ 0
      → Read m (printed n v) m (begun m.sequence)
  accept : {n v : ℕ} → m.sequence % 2 ^ 32 ≡ n % 2 ^ 32 → Read m (printed n v) m idle

pub record System : Type 0 where
  pub mem : Shared
  pub pc_writer : WriterPc
  pub pc_reader : ReaderPc

pub data Step (s : System) : System → Type 0 where
  run_writer :
      {m : Shared} {p : WriterPc}
      → Write s.mem s.pc_writer m p
      → Step s (record s { mem = m; pc_writer = p })
  run_reader :
      {m : Shared} {p : ReaderPc}
      → Read s.mem s.pc_reader m p
      → Step s (record s { mem = m; pc_reader = p })

abbrev pub start : System
start = record {
  mem = record { locked = false; sequence = 0; seq_variable = 0; stores = 0 };
  pc_writer = looping;
  pc_reader = idle;
}

pub data Reach : System → Type 0 where
  here : Reach start
  later : {s t : System} → Reach s → Step s t → Reach t
