-- ===== src/Gpio.antt =====
-- k_gpio_basics-28/gpio.c: a device that switches one line.
pub mod Setup
pub mod Line
use kernel_driver_lab.Prelude.{
  ℕ, ◌+◌, ◌*◌, ◌^◌, ℤ, pos, negsuc, enodev, Bool, not, ◌==◌, if◌then◌else◌, Option, none, some,
  List, [], ◌∷◌, replicate, get_or,
}
use kernel_driver_lab.Chardev.UserMemory.{Uaccess}

-- The line behind `led_desc`, and whether the descriptor is there.
pub record State : Type 0 where
  pub has_desc : Bool
  pub level : ℕ

-- An `int` in memory, of four bytes, the low byte first
abbrev pub int_at : List ℕ → ℕ
int_at bytes =
    get_or bytes 0 0
    + get_or bytes 1 0 * 2 ^ 8
    + get_or bytes 2 0 * 2 ^ 16
    + get_or bytes 3 0 * 2 ^ 24

-- The level that a value of the user sets
abbrev pub level_of : ℕ → ℕ
level_of value = if value == 1 then 1 else 0

module _ (k : Uaccess) where
  -- `g_write`: the size that is copied is that of an `int`, whatever `len` is, and a copy that fails
  -- is logged only. `stack` is what `value` holds before.
  unfoldable pub g_write : State → List ℕ → List ℕ → ℕ → ℤ × State
  g_write s stack buf len =
      let (left, value) = k.copy_from_user stack buf 4 in
      (pos 4, record s { level = level_of (int_at value) })

  -- `g_read`: the level is read before the descriptor is tested, and the result is 1 byte.
  unfoldable pub g_read : State → List ℕ → ℤ × List ℕ
  g_read s buf =
      if not s.has_desc
      then (enodev, buf)
      else let (left, user) = k.copy_to_user buf (s.level ∷ []) 1 in
        if not (left == 0) then (negsuc 0, user) else (pos 1, user)
