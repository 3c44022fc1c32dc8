-- ===== src/Race.antt =====
-- The two threads of k_mutex_module-12/without_mutex_module.c, which count in one variable with no
-- lock, a shared access at a time.
pub mod Lost
use kernel_driver_lab.Prelude.{ℕ, suc, ◌+◌, ◌%◌, ◌^◌, ◌≡◌}

-- Where a thread stands: at the test of `kthread_should_stop`, or between the load and the store of
-- `read_count++`.
pub data Pc : Type 0 where
  looping : Pc
  loaded : ℕ → Pc

-- The counter, the two threads, and how many increments each has stored, which the source does not
-- keep.
pub record System : Type 0 where
  pub read_count : ℕ  -- uint32_t
  pub pc_first : Pc  -- kthread_function
  pub pc_second : Pc  -- kthread_function1
  pub done_first : ℕ
  pub done_second : ℕ

abbrev pub start : System
start = record {
  read_count = 0;
  pc_first = looping;
  pc_second = looping;
  done_first = 0;
  done_second = 0;
}

pub data Step (s : System) : System → Type 0 where
  load_first : s.pc_first ≡ looping → Step s (record s { pc_first = loaded s.read_count })
  store_first :
      (v : ℕ)
      → s.pc_first ≡ loaded v
      → Step s (record s {
        read_count = (v + 1) % 2 ^ 32;
        pc_first = looping;
        done_first = suc s.done_first;
      })
  load_second : s.pc_second ≡ looping → Step s (record s { pc_second = loaded s.read_count })
  store_second :
      (v : ℕ)
      → s.pc_second ≡ loaded v
      → Step s (record s {
        read_count = (v + 1) % 2 ^ 32;
        pc_second = looping;
        done_second = suc s.done_second;
      })

pub data Reach : System → Type 0 where
  here : Reach start
  later : {s t : System} → Reach s → Step s t → Reach t
