-- ===== src/Gpio/Line.antt =====
-- Writing and reading the line.
use kernel_driver_lab.Prelude.{
  ℕ, zero, suc, ◌≤◌, ◌≡◌, refl, ap, ◌∙◌, pos, true, List, [], ◌∷◌, length, take, drop, arith,
}
use mathlib.Core.List.{append-nil}
use kernel_driver_lab.Chardev.UserMemory.{Uaccess}
use kernel_driver_lab.Gpio.{State, int_at, level_of, g_write, g_read}

drop_all : (xs : List ℕ) (n : ℕ) → length xs ≤ n → drop n xs ≡ []
drop_all [] zero h = refl
drop_all [] (suc n) h = refl
drop_all (x ∷ xs) zero h = absurd (omega arith)
drop_all (x ∷ xs) (suc n) h = drop_all xs n (omega arith)

value_copied :
    (k : Uaccess) (stack buf : List ℕ)
    → length stack ≡ 4
    → (k.copy_from_user stack buf 4).0 ≡ 0
    → (k.copy_from_user stack buf 4).1 ≡ take 4 buf
value_copied k stack buf size copied =
    k.from_copied stack buf 4 (omega (arith, size))
    ∙ rw copied (rw (drop_all stack 4 (omega (arith, size))) (append-nil (take 4 buf)))

byte_given :
    (k : Uaccess) (user : List ℕ) (level : ℕ)
    → (k.copy_to_user user (level ∷ []) 1).0 ≡ 0
    → (k.copy_to_user user (level ∷ []) 1).1 ≡ level ∷ drop 1 user
byte_given k user level taken = k.to_copied user (level ∷ []) 1 (omega arith) ∙ rw taken refl

-- What a user reads back is what was written: a write of an `int` that is
-- copied whole switches the line on exactly if the `int` is 1, and off otherwise; the next read, if
-- its copy succeeds, returns one byte, which is that level.
pub g_read-g_write :
    (k : Uaccess) (s : State) (stack buf user : List ℕ) (len : ℕ)
    → length stack ≡ 4
    → s.has_desc ≡ true
    → (k.copy_from_user stack buf 4).0 ≡ 0
    → let level = level_of (int_at (take 4 buf)) in
      (k.copy_to_user user (level ∷ []) 1).0 ≡ 0
      → ((g_write k s stack buf len).0 ≡ pos 4)
        × (g_read k (g_write k s stack buf len).1 user ≡ (pos 1, level ∷ drop 1 user))
unfolding g_write g_read
g_read-g_write k s stack buf user len size there copied taken = (
  refl,
  rw (value_copied k stack buf size copied, g_read)
      (rw there (rw taken (ap (λ u. (pos 1, u)) (byte_given k user _ taken)))),
)
