-- ===== src/Chardev.antt =====
-- The character device that most of the drivers share, as in k_spinlocks_module-15/spinlock_module.c:
-- a static buffer of 1024 bytes that `write` fills and `read` hands out.
pub mod UserMemory
pub mod Text
pub mod Terminated
pub mod RoundTrip
pub mod Concurrent
mod Tests
use kernel_driver_lab.Prelude.{
  ℕ, suc, ◌+◌, ◌-◌, ℤ, pos, efault, Bool, not, ltb, leb, ◌==◌, if◌then◌else◌, Option, none, some,
  List, [], ◌∷◌, set, replicate,
}
use UserMemory.{Uaccess}

-- BUFF_SIZE
abbrev pub buff_size : ℕ
buff_size = 1024

-- `static char device_buffer[BUFF_SIZE]`
unfoldable pub device_buffer : List ℕ
device_buffer = replicate buff_size 0

-- `strlen`; `none` is a string that does not end within its array.
abbrev pub strlen : List ℕ → Option ℕ
strlen [] = none
strlen (x ∷ xs) =
    if x == 0 then some 0 else elim (strlen xs) [ none ↦ none | some n ↦ some (suc n) ]

-- What `my_read` leaves behind: its result, `*offset`, the user's memory, the buffer.
pub record ReadOutcome : Type 0 where
  pub result : ℤ
  pub offset : ℕ
  pub user : List ℕ
  pub buffer : List ℕ

-- The cap on `len`
abbrev pub to_copy : ℕ → ℕ
to_copy len = if ltb buff_size len then buff_size else len

-- Where the end of the string is written
abbrev pub safe_len : ℕ → ℕ
safe_len n = if ltb n (buff_size - 1) then n else buff_size - 1

module _ (k : Uaccess) where
  -- `my_write`: the result and the new contents of `device_buffer`. The user's memory is the list of
  -- bytes that can be read at `buf`.
  unfoldable pub my_write : List ℕ → List ℕ → ℕ → ℤ × List ℕ
  my_write buffer buf len =
      let (left, copied) = k.copy_from_user buffer buf (to_copy len) in
      if not (left == 0)
      then (efault, copied)
      else (pos (to_copy len), set copied (safe_len (to_copy len)) 0)

  -- `my_read`. The parameter `len` is not used by the source. `none` is a read past the buffer.
  unfoldable pub my_read : List ℕ → List ℕ → ℕ → ℕ → Option ReadOutcome
  my_read buffer buf len offset = elim (strlen buffer) [
    | none ↦ none
    | some length ↦
        if leb length offset
        then some (record { result = pos 0; offset = offset; user = buf; buffer = buffer })
        else let ended = set buffer length 0 in
          let (left, user) = k.copy_to_user buf ended length in
          if not (left == 0)
          then some (record { result = efault; offset = offset; user = user; buffer = ended })
          else some (record {
            result = pos length;
            offset = offset + length;
            user = user;
            buffer = ended;
          })
  ]
