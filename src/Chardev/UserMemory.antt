-- ===== src/Chardev/UserMemory.antt =====
-- The kernel's copies to and from user memory, which the drivers call and do not implement, with
-- what their documentation says: they return the number of bytes that they could not copy, the
-- bytes before those are copied, and `copy_from_user` fills the rest of its target with zeros.
use kernel_driver_lab.Prelude.{
  ℕ, ◌-◌, ◌≤◌, ◌≡◌, refl, List, ◌++◌, length, take, drop, replicate, arith, min,
}

pub record Uaccess : Type 0 where
  pub copy_from_user : (to source : List ℕ) → ℕ → ℕ × List ℕ
  pub copy_to_user : (to source : List ℕ) → ℕ → ℕ × List ℕ
  pub from_left : (to source : List ℕ) (n : ℕ) → (copy_from_user to source n).0 ≤ n
  pub from_readable :
      (to source : List ℕ) (n : ℕ) → n - (copy_from_user to source n).0 ≤ length source
  pub from_copied :
      (to source : List ℕ) (n : ℕ)
      → n ≤ length to
      → (copy_from_user to source n).1
        ≡ take (n - (copy_from_user to source n).0) source
          ++ (replicate (copy_from_user to source n).0 0 ++ drop n to)
  pub to_left : (to source : List ℕ) (n : ℕ) → (copy_to_user to source n).0 ≤ n
  pub to_copied :
      (to source : List ℕ) (n : ℕ)
      → n ≤ length source
      → (copy_to_user to source n).1
        ≡ take (n - (copy_to_user to source n).0) source
          ++ drop (n - (copy_to_user to source n).0) to

-- Copies that stop where the user's memory ends.
abbrev pub short : List ℕ → ℕ → ℕ
short user n = n - min n (length user)

short-le : (user : List ℕ) (n : ℕ) → short user n ≤ n
short-le user n = omega arith

short-readable : (user : List ℕ) (n : ℕ) → n - short user n ≤ length user
short-readable user n = omega arith

pub short_laws :
    ((user : List ℕ) (n : ℕ) → short user n ≤ n)
    × ((user : List ℕ) (n : ℕ) → n - short user n ≤ length user)
short_laws = (short-le, short-readable)

unfoldable pub whole_memory : Uaccess
whole_memory = record {
  copy_from_user = λ to source n. (
    short source n,
    take (n - short source n) source ++ (replicate (short source n) 0 ++ drop n to),
  );
  copy_to_user =
      λ to source n. (short to n, take (n - short to n) source ++ drop (n - short to n) to);
  from_left = λ to. short_laws.0;
  from_readable = λ to. short_laws.1;
  from_copied = λ to source n h. refl;
  to_left = λ to source n. short_laws.0 to n;
  to_copied = λ to source n h. refl;
}
