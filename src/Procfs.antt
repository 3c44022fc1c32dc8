-- ===== src/Procfs.antt =====
-- The file in /proc of k_procfs_module-08/procfs_module.c: each write frees the buffer and allocates
-- it anew.
pub mod Blocks
mod Tests
use kernel_driver_lab.Prelude.{
  ℕ, suc, ◌+◌, ◌-◌, ℤ, pos, efault, Bool, true, false, not, leb, ◌==◌, if◌then◌else◌, Option, none,
  some, List, length, set,
}
use kernel_driver_lab.Chardev.{strlen, ReadOutcome}
use kernel_driver_lab.Chardev.UserMemory.{Uaccess}
use kernel_driver_lab.Vmalloc.{held}

-- The pointer, with the bytes of its block, and how many blocks are allocated, which the source does
-- not keep.
pub record State : Type 0 where
  pub proc_buffer : Option (List ℕ)
  pub allocated : ℕ

abbrev pub loaded : State
loaded = record { proc_buffer = none; allocated = 0 }

-- What `proc_write` leaves behind, and whether it stored a byte behind its block.
pub record Written : Type 0 where
  pub result : ℤ
  pub state : State
  pub overrun : Bool

-- `kfree(proc_buffer)`, which does nothing with NULL
abbrev pub freed : State → ℕ
freed s = s.allocated - held s.proc_buffer

module _ (k : Uaccess) where
  -- `proc_write`: `block` is what `kmalloc(len + 1)` returns.
  unfoldable pub proc_write : State → Option (List ℕ) → List ℕ → ℕ → Written
  proc_write s none buf len = record {
    result = efault;
    state = record { proc_buffer = none; allocated = freed s };
    overrun = false;
  }
  proc_write s (some block) buf len =
      let (left, copied) = k.copy_from_user block buf len in
      if not (left == 0)
      then record {
        result = efault;
        state = record { proc_buffer = some copied; allocated = suc (freed s) };
        overrun = false;
      }
      else record {
        result = pos len;
        state = record { proc_buffer = some (set copied (suc len) 0); allocated = suc (freed s) };
        overrun = leb (length copied) (suc len);
      }

  -- `proc_read`; `none` is a read through NULL or past the block.
  unfoldable pub proc_read : State → List ℕ → ℕ → ℕ → Option ReadOutcome
  proc_read s buf len offset = elim s.proc_buffer [
    | none ↦ none
    | some b ↦ elim (strlen b) [
      | none ↦ none
      | some length ↦
          if leb length offset
          then some (record { result = pos 0; offset = offset; user = buf; buffer = b })
          else let (left, user) = k.copy_to_user buf b length in
            if not (left == 0)
            then some (record { result = efault; offset = offset; user = user; buffer = b })
            else some
                (record { result = pos length; offset = offset + length; user = user; buffer = b })
    ]
  ]

-- The part of `hello_exit` that frees the buffer.
unfoldable pub free_buffer : State → State
free_buffer s = record s { allocated = freed s }
