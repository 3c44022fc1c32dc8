-- ===== src/Chardev/RoundTrip.antt =====
-- A message that is written is what the next read hands out.
use kernel_driver_lab.Prelude.{
  ℕ, ◌-◌, ◌≤◌, ◌<◌, ◌≡◌, ap, ◌∙◌, pos, List, ◌++◌, some, length, set, take, drop, replicate, arith,
  min,
}
use kernel_driver_lab.Chardev.{buff_size, strlen, to_copy, my_write, my_read}
use kernel_driver_lab.Chardev.UserMemory.{Uaccess}
use kernel_driver_lab.Chardev.Text.{
  AllNonzero, take-take_append, strlen-set, strlen_stop, AllNonzero-take,
}
use kernel_driver_lab.Chardev.Terminated.{IsTerminated, copied-length, my_read_lem}

-- A message that the user can pass: its bytes are in memory and none of them is 0.
pub record IsMessage (buf : List ℕ) (len : ℕ) : Type 0 where
  pub in_memory : len ≤ length buf
  pub text : AllNonzero (take len buf)

module _ (k : Uaccess) (b buf : List ℕ) (len : ℕ) where
  abbrev left : ℕ
  left = (k.copy_from_user b buf (to_copy len)).0

  abbrev copied : List ℕ
  copied = (k.copy_from_user b buf (to_copy len)).1

  -- A write that returns a count has copied everything, and ends the string.
  written :
      {count : ℕ}
      → (my_write k b buf len).0 ≡ pos count
      → (left ≡ 0)
        × (count ≡ min len buff_size)
        × ((my_write k b buf len).1 ≡ set copied (min len (buff_size - 1)) 0)
  unfolding my_write
  written h = (ground arith, ground arith, ground arith)

  copied-text :
      left ≡ 0
      → length b ≡ buff_size
      → len ≤ length buf
      → (length copied ≡ buff_size)
        × (take (min len (buff_size - 1)) copied ≡ take (min len (buff_size - 1)) buf)
  copied-text none_left size readable =
      let fits : to_copy len ≤ length b = ground (arith, size) in
      (
        copied-length k b buf (to_copy len) fits ∙ size,
        rw (k.from_copied b buf (to_copy len) fits) (
            take-take_append (min len (buff_size - 1)) (to_copy len - left) buf
              (replicate left 0 ++ drop (to_copy len) b) (ground (arith, none_left)) (omega arith)),
      )

-- After a write that returned a count, the count is `len` or 1024, whichever is less, and the buffer
-- holds the message, cut after 1023 bytes: a message of 1024 bytes or more loses its end although it
-- is counted.
pub my_write_text :
    (k : Uaccess) (b buf : List ℕ) (len : ℕ) {count : ℕ}
    → IsTerminated b
    → IsMessage buf len
    → (my_write k b buf len).0 ≡ pos count
    → (count ≡ min len buff_size)
      × (strlen (my_write k b buf len).1 ≡ some (min len (buff_size - 1)))
      × (take (min len (buff_size - 1)) (my_write k b buf len).1
          ≡ take (min len (buff_size - 1)) buf)
my_write_text k b buf len v m h =
    let (none_left, counted, stored) = written k b buf len h in
    let (size, text) = copied-text k b buf len none_left v.size m.in_memory in
    let ended =
      strlen-set (copied k b buf len) (min len (buff_size - 1)) (omega (arith, size))
        (rw text (AllNonzero-take (min len (buff_size - 1)) len buf (omega arith) m.text)) in
    (counted, rw stored ended.0, rw stored (ended.1 ∙ text))

handed_out :
    (k : Uaccess) (user source : List ℕ) (n : ℕ)
    → n ≤ length source
    → (k.copy_to_user user source n).0 ≡ 0
    → (k.copy_to_user user source n).1 ≡ take n source ++ drop n user
handed_out k user source n h taken =
    k.to_copied user source n h ∙ ap (λ j. take j source ++ drop j user) (omega (arith, taken))

-- A message that was written, of at least one byte and with no byte 0 in it, is handed out by the next
-- read from offset 0, if the user's memory takes it: the read returns the length of the message, cut at 1023, and moves the
-- offset there, and the user's memory begins with the message; a further read from there returns 0
-- and changes nothing. Both hold for every `len` that the readers pass, even one below the length.
pub my_read-my_write :
    (k : Uaccess) (b buf user : List ℕ) (len read_len : ℕ) {count : ℕ}
    → IsTerminated b
    → IsMessage buf len
    → (my_write k b buf len).0 ≡ pos count
    → 0 < len
    → (k.copy_to_user user (my_write k b buf len).1 (min len (buff_size - 1))).0 ≡ 0
    → let n = min len (buff_size - 1) in
      let b' = (my_write k b buf len).1 in
      let user' = take n buf ++ drop n user in
      (my_read k b' user read_len 0
        ≡ some (record { result = pos n; offset = n; user = user'; buffer = b' }))
      × (my_read k b' user' read_len n
          ≡ some (record { result = pos 0; offset = n; user = user'; buffer = b' }))
my_read-my_write k b buf user len read_len v m h positive taken =
    let (counted, ends, text) = my_write_text k b buf len v m h in
    let n = min len (buff_size - 1) in
    let b' = (my_write k b buf len).1 in
    let user' = take n buf ++ drop n user in
    let received : (k.copy_to_user user b' n).1 ≡ user' =
      handed_out k user b' n (omega (arith, (strlen_stop b' ends).1)) taken
      ∙ ap (λ t. t ++ drop n user) text in
    (
      rw (my_read_lem k b' user read_len 0 ends) (ground (arith, received)),
      rw (my_read_lem k b' user' read_len n ends) (ground arith),
    )
