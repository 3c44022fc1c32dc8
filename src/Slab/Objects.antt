-- ===== src/Slab/Objects.antt =====
-- The object of a write is freed, and the write is that of the character device.
use kernel_driver_lab.Prelude.{ℕ, efault, is_negative, ◌≡◌, Bool, if◌then◌else◌, List, arith}
use kernel_driver_lab.Ledger.{replay, nothing}
use kernel_driver_lab.Chardev
use kernel_driver_lab.Chardev.{to_copy, safe_len}
use kernel_driver_lab.Chardev.UserMemory.{Uaccess}
use kernel_driver_lab.Slab.{Object, object_tagged, my_write}

-- On every path of a write: no object stays allocated, and none is freed that was not; the buffer is
-- that of the plain character device; and so is the result, but for an object that is refused: then it
-- is -EFAULT also where the plain device would return a count.
pub slab_write_lem :
    (k : Uaccess) (buffer : List ℕ) (granted : Bool) (buf : List ℕ) (len : ℕ)
    → let w = my_write k buffer granted buf len in
      let (plain, plain_buffer) = Chardev.my_write k buffer buf len in
      (replay (nothing Object) w.1 ≡ nothing Object)
      × (w.0.1 ≡ plain_buffer)
      × (w.0.0 ≡ (if is_negative plain then plain else if granted then plain else efault))
unfolding my_write Chardev.my_write
slab_write_lem k buffer granted buf len = ground arith
