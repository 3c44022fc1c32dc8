-- ===== src/Kmalloc.antt =====
-- The write of k_malloc_05/kmalloc.c, which copies the message into a block that it frees again.
pub mod Leaks
use kernel_driver_lab.Prelude.{
  ℕ, suc, ℤ, pos, efault, Bool, false, not, leb, ◌==◌, if◌then◌else◌, Option, none, some, List,
  length,
}
use kernel_driver_lab.Chardev.UserMemory.{Uaccess}

-- The result, the blocks that no pointer leads to any more, and whether a byte was stored behind the
-- block.
pub record Written : Type 0 where
  pub result : ℤ
  pub lost : ℕ
  pub overrun : Bool

-- `my_write`: `block` is what `kmalloc(len + 1)` returns, `lost` the blocks lost before.
unfoldable pub my_write : Uaccess → ℕ → Option (List ℕ) → List ℕ → ℕ → Written
my_write k lost none buf len = record { result = efault; lost = lost; overrun = false }
my_write k lost (some block) buf len =
    let (left, copied) = k.copy_from_user block buf (suc len) in
    if not (left == 0)
    then record { result = efault; lost = suc lost; overrun = false }
    else record { result = pos len; lost = lost; overrun = leb (length copied) (suc len) }
