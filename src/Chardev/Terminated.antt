-- ===== src/Chardev/Terminated.antt =====
-- The buffer always holds a string: it keeps its size and a zero byte, through every call.
use kernel_driver_lab.Prelude.{
  ℕ, ◌+◌, ◌-◌, ◌≤◌, ◌≡◌, refl, ◌∙◌, pos, efault, List, some, length, get_elem?, set, arith, ◌==◌,
  leb, if◌then◌else◌, Bool-cases, inl, inr, length-set, get_elem?-set_self, length-replicate,
}
use kernel_driver_lab.Chardev.{
  buff_size, device_buffer, strlen, to_copy, safe_len, my_write, my_read, ReadOutcome,
}
use kernel_driver_lab.Chardev.UserMemory.{Uaccess}
use kernel_driver_lab.Chardev.Text.{
  strlen-some, strlen_stop, set_same, length-filled, get_elem?-filled,
}

pub record IsTerminated (b : List ℕ) : Type 0 where
  pub size : length b ≡ buff_size
  pub ends : (n : ℕ) × (strlen b ≡ some n)

pub zero_at-IsTerminated :
    (b : List ℕ) (i : ℕ) → length b ≡ buff_size → get_elem? b i ≡ some 0 → IsTerminated b
zero_at-IsTerminated b i size h =
    let (n, found, le) = strlen-some b i h in record { size = size; ends = (n, found) }

-- The buffer of a freshly loaded module holds the empty string.
pub device_buffer-IsTerminated : IsTerminated device_buffer
unfolding device_buffer
device_buffer-IsTerminated = zero_at-IsTerminated _ 0 (length-replicate {A = ℕ} buff_size 0) refl

pub copied-length :
    (k : Uaccess) (b buf : List ℕ) (n : ℕ)
    → n ≤ length b
    → length (k.copy_from_user b buf n).1 ≡ length b
copied-length k b buf n h = rw (k.from_copied b buf n h) (
    length-filled buf b n (k.copy_from_user b buf n).0 (k.from_left b buf n)
      (k.from_readable b buf n) h)

-- Whatever the user passes and however much of it can be copied, `my_write` leaves a buffer of
-- 1024 bytes with a string in it, also when it returns -EFAULT after a partial copy.
pub my_write-IsTerminated :
    (k : Uaccess) (b buf : List ℕ) (len : ℕ)
    → IsTerminated b
    → IsTerminated (my_write k b buf len).1
unfolding my_write
my_write-IsTerminated k b buf len v =
    elim (Bool-cases ((k.copy_from_user b buf (to_copy len)).0 == 0)) [
      | inl e ↦ rw e (
          zero_at-IsTerminated (set copied (safe_len n) 0) (safe_len n)
            (length-set copied (safe_len n) 0 ∙ size)
            (get_elem?-set_self copied (safe_len n) 0 (ground (arith, size))))
      | inr e ↦ rw e (
          zero_at-IsTerminated copied (n - left) size (
            rw (k.from_copied b buf n fits)
              (get_elem?-filled buf b n left (k.from_readable b buf n) (ground arith))))
    ]
  where
    n : ℕ
    n = to_copy len

    left : ℕ
    left = (k.copy_from_user b buf n).0

    copied : List ℕ
    copied = (k.copy_from_user b buf n).1

    fits : n ≤ length b
    fits = ground (arith, v.size)

    size : length copied ≡ buff_size
    size = copied-length k b buf n fits ∙ v.size

-- What `my_read` does on a buffer that holds a string of length `n`.
abbrev pub expected_read : Uaccess → List ℕ → List ℕ → ℕ → ℕ → ReadOutcome
expected_read k b buf n offset =
    if leb n offset
    then record { result = pos 0; offset = offset; user = buf; buffer = b }
    else let (left, user) = k.copy_to_user buf b n in
      record {
        result = if left == 0 then pos n else efault;
        offset = if left == 0 then offset + n else offset;
        user = user;
        buffer = b;
      }

-- On a buffer that holds a string `my_read` never reads past the array and leaves the buffer as it
-- is. At or past the end of the string it returns 0; else it copies the whole string, from its first
-- byte and whatever `len` is, and returns and advances by its length, or returns -EFAULT.
pub my_read_lem :
    (k : Uaccess) (b buf : List ℕ) (len offset : ℕ) {n : ℕ}
    → strlen b ≡ some n
    → my_read k b buf len offset ≡ some (expected_read k b buf n offset)
unfolding my_read
my_read_lem k b buf len offset {n} h =
    rw (h, my_read) (rw (set_same b n 0 (strlen_stop b h).0) (ground arith))
