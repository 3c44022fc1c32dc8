-- ===== src/Ioctl/Value.antt =====
-- What is read is what was stored.
use kernel_driver_lab.Prelude.{
  ℕ, zero, suc, ◌≤◌, ◌≡◌, refl, ◌∙◌, ap, Bool, true, false, not, ◌&&◌, ◌==◌, List, [], ◌∷◌, ◌++◌,
  length, take, drop, arith, Bool-cases, inl, inr,
}
use mathlib.Core.List.{append-nil}
use kernel_driver_lab.Chardev.Terminated.{copied-length}
use kernel_driver_lab.Chardev.UserMemory.{Uaccess}
use kernel_driver_lab.Ioctl.{io_write, io_read, value_size, tmp_ioctl}

-- A call: the command and the caller's memory.
pub record Call : Type 0 where
  pub cmd : ℕ
  pub user : List ℕ

-- The variable after some calls
abbrev pub run : Uaccess → List ℕ → List Call → List ℕ
run k value [] = value
run k value (c ∷ cs) = run k (tmp_ioctl k value c.user c.cmd).value cs

abbrev pub none_stores : List Call → Bool
none_stores [] = true
none_stores (c ∷ cs) = not (c.cmd == io_write) && none_stores cs

tmp_ioctl-kept :
    (k : Uaccess) (value user : List ℕ) (cmd : ℕ)
    → (cmd == io_write) ≡ false
    → (tmp_ioctl k value user cmd).value ≡ value
unfolding tmp_ioctl
tmp_ioctl-kept k value user cmd e = ground arith

run_kept :
    (k : Uaccess) (value : List ℕ) (cs : List Call) → none_stores cs ≡ true → run k value cs ≡ value
run_kept k value [] h = refl
run_kept k value (c ∷ cs) h = elim (Bool-cases (c.cmd == io_write)) [
  | inl e ↦ ground arith
  | inr e ↦ rw (tmp_ioctl-kept k value c.user c.cmd e) (run_kept k value cs (ground arith))
]

drop_whole : (n : ℕ) (xs : List ℕ) → length xs ≡ n → drop n xs ≡ []
drop_whole zero [] h = refl
drop_whole zero (x ∷ xs) h = absurd (omega (arith, h))
drop_whole (suc n) [] h = refl
drop_whole (suc n) (x ∷ xs) h = drop_whole n xs (omega (arith, h))

take_twice : (n : ℕ) (xs : List ℕ) → take n (take n xs) ≡ take n xs
take_twice zero xs = refl
take_twice (suc n) [] = refl
take_twice (suc n) (x ∷ xs) = ap (λ ys. x ∷ ys) (take_twice n xs)

-- The bytes that a whole store leaves
stored :
    (k : Uaccess) (value source : List ℕ)
    → length value ≡ value_size
    → (k.copy_from_user value source value_size).0 ≡ 0
    → (tmp_ioctl k value source io_write).value ≡ take value_size source
unfolding tmp_ioctl
stored k value source h e =
    rw (k.from_copied value source value_size (omega (arith, h)), e, drop_whole value_size value h)
      (append-nil (take value_size source))

-- After IO_WRITE has copied its four bytes whole, and any calls with other commands, known or not,
-- IO_READ that copies whole puts these four bytes into the reader's memory, and changes nothing
-- behind them.
pub io_read-io_write :
    (k : Uaccess) (value source target : List ℕ) (between : List Call)
    → length value ≡ value_size
    → (k.copy_from_user value source value_size).0 ≡ 0
    → none_stores between ≡ true
    → let after = run k (tmp_ioctl k value source io_write).value between in
      (k.copy_to_user target after value_size).0 ≡ 0
      → (tmp_ioctl k after target io_read).user ≡ take value_size source ++ drop value_size target
unfolding tmp_ioctl
io_read-io_write k value source target between h e n e' =
    let after = run k (tmp_ioctl k value source io_write).value between in
    let kept : after ≡ take value_size source =
      run_kept k _ between n ∙ stored k value source h e in
    let size : value_size ≤ length after =
      rw (run_kept k (tmp_ioctl k value source io_write).value between n)
        (omega (arith, h, copied-length k value source value_size (omega (arith, h)))) in
    k.to_copied target after value_size size
    ∙ rw e' (
        ap (λ v. take value_size v ++ drop value_size target) kept
        ∙ ap (λ v. v ++ drop value_size target) (take_twice value_size source))
