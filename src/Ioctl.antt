-- ===== src/Ioctl.antt =====
-- `tmp_ioctl` of k_ioctl_module-04/ioctl.c: an integer that one command stores and another one reads.
pub mod Value
use kernel_driver_lab.Prelude.{ℕ, ℤ, pos, ◌==◌, if◌then◌else◌, List}
use kernel_driver_lab.Chardev.UserMemory.{Uaccess}

-- `_IOW('a', 'b', int32_t)` and `_IOR('a', 'b', int32_t)`
abbrev pub io_write : ℕ
io_write = 0x40046162

abbrev pub io_read : ℕ
io_read = 0x80046162

-- `sizeof(value)`
abbrev pub value_size : ℕ
value_size = 4

-- What a call leaves behind: its result, the bytes of `value`, and the caller's memory.
pub record Outcome : Type 0 where
  pub result : ℤ
  pub value : List ℕ
  pub user : List ℕ

-- `value` is the bytes of the variable, `user` the memory at `arg`. A copy that fails is only logged.
unfoldable pub tmp_ioctl : Uaccess → List ℕ → List ℕ → ℕ → Outcome
tmp_ioctl k value user cmd =
    if cmd == io_write
    then record { result = pos 0; value = (k.copy_from_user value user value_size).1; user = user }
    else if cmd == io_read
    then record { result = pos 0; value = value; user = (k.copy_to_user user value value_size).1 }
    else record { result = pos 0; value = value; user = user }
