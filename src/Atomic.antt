-- ===== src/Atomic.antt =====
-- The two threads of k_atomic_variables-23/atomic_variable.c, which count with `atomic_inc` and flip
-- a bit with `test_and_change_bit`; each of these is a single step.
pub mod Counts
use kernel_driver_lab.Prelude.{ℕ, suc, ◌+◌, ◌-◌, ◌/◌, ◌%◌, ◌^◌, ◌==◌, if◌then◌else◌, List, [], ◌∷◌}

-- The variables; and what the source does not keep: how many increments there were, and the values
-- that the flips have returned, the last one first.
pub record Shared : Type 0 where
  pub atomic_v : ℕ  -- atomic_t, as its 32 bits
  pub bit_check : ℕ
  pub incs : ℕ
  pub returned : List ℕ

-- Bit 1 of a word, and the word with that bit flipped.
abbrev pub bit_one : ℕ → ℕ
bit_one w = (w / 2) % 2

abbrev pub flip_one : ℕ → ℕ
flip_one w = if bit_one w == 0 then w + 2 else w - 2

-- Where `thread_function` or `thread_function2` stands.
pub data Pc : Type 0 where
  looping : Pc
  counted : Pc  -- between `atomic_inc` and `test_and_change_bit`
  stopped : Pc

pub data Move (m : Shared) : Pc → Shared → Pc → Type 0 where
  stop : Move m looping m stopped
  atomic_inc :
      Move m looping (record m { atomic_v = (m.atomic_v + 1) % 2 ^ 32; incs = suc m.incs }) counted
  test_and_change_bit :
      Move m counted
        (record m { bit_check = flip_one m.bit_check; returned = bit_one m.bit_check ∷ m.returned })
        looping

pub record System : Type 0 where
  pub mem : Shared
  pub pc_one : Pc
  pub pc_two : Pc

pub data Step (s : System) : System → Type 0 where
  run_one :
      {m : Shared} {p : Pc} → Move s.mem s.pc_one m p → Step s (record s { mem = m; pc_one = p })
  run_two :
      {m : Shared} {p : Pc} → Move s.mem s.pc_two m p → Step s (record s { mem = m; pc_two = p })

abbrev pub start : System
start = record {
  mem = record { atomic_v = 0; bit_check = 0; incs = 0; returned = [] };
  pc_one = looping;
  pc_two = looping;
}

pub data Reach : System → Type 0 where
  here : Reach start
  later : {s t : System} → Reach s → Step s t → Reach t
