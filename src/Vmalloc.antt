-- ===== src/Vmalloc.antt =====
-- The module of k_vmalloc-06/vmalloc.c, whose writes allocate a new buffer each, and what its reads
-- hand out.
pub mod Blocks
pub mod Reads
use kernel_driver_lab.Prelude.{
  ℕ, suc, ◌+◌, ℤ, pos, efault, enomem, Bool, true, false, not, leb, ◌==◌, if◌then◌else◌, Option,
  none, some, List, length, set,
}
use kernel_driver_lab.Chardev.{strlen, ReadOutcome}
use kernel_driver_lab.Chardev.UserMemory.{Uaccess}

-- The pointer, with the bytes of its block, and how many blocks that no pointer leads to any more
-- are allocated, which the source does not keep.
pub record State : Type 0 where
  pub device_buffer : Option (List ℕ)
  pub lost : ℕ

abbrev pub loaded : State
loaded = record { device_buffer = none; lost = 0 }

-- What `my_write` leaves behind, and whether it stored a byte behind its block; a byte that is
-- stored there is not modelled.
pub record Written : Type 0 where
  pub result : ℤ
  pub state : State
  pub overrun : Bool

-- The blocks that a pointer leads to.
abbrev pub held : Option (List ℕ) → ℕ
held none = 0
held (some b) = 1

module _ (k : Uaccess) where
  -- `my_write`: `block` is what `vmalloc(len + 1)` returns.
  unfoldable pub my_write : State → Option (List ℕ) → List ℕ → ℕ → Written
  my_write s none buf len = record {
    result = enomem;
    state = record { device_buffer = none; lost = s.lost + held s.device_buffer };
    overrun = false;
  }
  my_write s (some block) buf len =
      let (left, copied) = k.copy_from_user block buf len in
      let gone = s.lost + held s.device_buffer in
      if not (left == 0)
      then record {
        result = efault;
        state = record { device_buffer = some copied; lost = gone };
        overrun = false;
      }
      else record {
        result = pos len;
        state = record { device_buffer = some (set copied (suc len) 0); lost = gone };
        overrun = leb (length copied) (suc len);
      }

  -- `my_read`; `none` is a read through NULL or past the block.
  unfoldable pub my_read : State → List ℕ → ℕ → ℕ → Option ReadOutcome
  my_read s buf len offset = elim s.device_buffer [
    | none ↦ none
    | some b ↦ elim (strlen b) [
      | none ↦ none
      | some length ↦
          if leb length offset
          then some (record { result = pos 0; offset = offset; user = buf; buffer = b })
          else let (left, user) = k.copy_to_user buf b length in
            if not (left == 0)
            then some (record { result = efault; offset = offset; user = user; buffer = b })
            else some
                (record { result = pos len; offset = offset + length; user = user; buffer = b })
    ]
  ]

-- `vmalloc_exit` frees the block that the pointer leads to.
unfoldable pub vmalloc_exit : State → State
vmalloc_exit s = record s { device_buffer = none }
