-- ===== src/Export.antt =====
-- The counter that k_export_symbol-22/export_symbol.c exports, and the read of export_symbol_2.c, which
-- advances it.
pub mod Reads
mod Tests
use kernel_driver_lab.Prelude.{
  ℕ, ◌+◌, ◌%◌, ◌^◌, ℤ, pos, efault, not, leb, ◌==◌, if◌then◌else◌, Option, none, some, List, set,
}
use kernel_driver_lab.Chardev.{strlen, ReadOutcome}
use kernel_driver_lab.Chardev.UserMemory.{Uaccess}

-- `shared_variable++`, on the 32 bits of an int
unfoldable pub extern_shared_function : ℕ → ℕ
extern_shared_function shared_variable = (shared_variable + 1) % 2 ^ 32

-- `my_read` of export_symbol_2.c: the outcome, as in `Chardev`, and `shared_variable` after it.
unfoldable pub my_read : Uaccess → ℕ → List ℕ → List ℕ → ℕ → ℕ → Option ReadOutcome × ℕ
my_read k shared_variable buffer buf len offset = elim (strlen buffer) [
  | none ↦ (none, shared_variable)
  | some length ↦
      if leb length offset
      then (
        some (record { result = pos 0; offset = offset; user = buf; buffer = buffer }),
        shared_variable,
      )
      else let ended = set buffer length 0 in
        let (left, user) = k.copy_to_user buf ended length in
        if not (left == 0)
        then (
          some (record { result = efault; offset = offset; user = user; buffer = ended }),
          shared_variable,
        )
        else (
          some (record {
            result = pos length;
            offset = offset + length;
            user = user;
            buffer = ended;
          }),
          extern_shared_function shared_variable,
        )
]
