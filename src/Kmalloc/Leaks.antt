-- ===== src/Kmalloc/Leaks.antt =====
-- The block that a failed copy loses, and the byte behind it.
use kernel_driver_lab.Prelude.{
  ℕ, suc, ◌<◌, ◌≡◌, refl, pos, efault, true, some, List, length, arith, ◌⊎◌, inl, inr, Bool-cases,
  ◌==◌,
}
use kernel_driver_lab.Chardev.UserMemory.{Uaccess}
use kernel_driver_lab.Chardev.Terminated.{copied-length}
use kernel_driver_lab.Kmalloc.{my_write}

-- A write into a block of exactly the size that it asks for has two outcomes. Either it returns -EFAULT,
-- and the block is lost; or it returns `len`, nothing is lost, a byte is stored behind the block, and
-- the user's memory goes on behind the message, since one byte more than the message is copied.
pub kmalloc_write_lem :
    (k : Uaccess) (lost : ℕ) (block buf : List ℕ) (len : ℕ)
    → length block ≡ suc len
    → let w = my_write k lost (some block) buf len in
      ((w.result ≡ efault) × (w.lost ≡ suc lost))
      ⊎ ((w.result ≡ pos len) × (len < length buf) × (w.lost ≡ lost) × (w.overrun ≡ true))
unfolding my_write
kmalloc_write_lem k lost block buf len h =
    let size = copied-length k block buf (suc len) (omega (arith, h)) in
    let readable = k.from_readable block buf (suc len) in
    elim (Bool-cases ((k.copy_from_user block buf (suc len)).0 == 0)) [
      | inl whole ↦ inr (ground arith)
      | inr part ↦ inl (rw part (refl, refl))
    ]
