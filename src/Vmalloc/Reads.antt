-- ===== src/Vmalloc/Reads.antt =====
-- What a write leaves for the reads: where the string ends, and what they return.
use kernel_driver_lab.Prelude.{
  ℕ, suc, ◌-◌, ◌≤◌, ◌≡◌, refl, sym, ap, ◌∙◌, pos, negsuc, ◌==◌, if◌then◌else◌, Option, none, some,
  List, [], ◌∷◌, ◌++◌, length, set, take, drop, arith, length-take, length-append, length-drop, ◌+◌,
}
use kernel_driver_lab.Chardev
use kernel_driver_lab.Chardev.{strlen, ReadOutcome}
use kernel_driver_lab.Chardev.UserMemory.{Uaccess}
use kernel_driver_lab.Chardev.Text.{AllNonzero}
use kernel_driver_lab.Chardev.Terminated.{expected_read, my_read_lem}
use kernel_driver_lab.Chardev.RoundTrip.{IsMessage}
use kernel_driver_lab.Vmalloc.{State, my_write, my_read}

set-behind :
    (xs : List ℕ) (x v : ℕ) (ys : List ℕ)
    → set (xs ++ x ∷ ys) (suc (length xs)) v ≡ xs ++ x ∷ set ys 0 v
set-behind [] x v ys = refl
set-behind (w ∷ xs) x v ys = ap (λ zs. w ∷ zs) (set-behind xs x v ys)

-- Where the string ends that `x` and the bytes `rest` follow, once a zero is stored behind `x`.
abbrev pub string_end : ℕ → ℕ → List ℕ → Option ℕ
string_end len x [] = if x == 0 then some len else none
string_end len x (y ∷ ys) = if x == 0 then some len else some (suc len)

strlen-behind :
    (xs : List ℕ) (x : ℕ) (rest : List ℕ)
    → AllNonzero xs
    → strlen (xs ++ x ∷ set rest 0 0) ≡ string_end (length xs) x rest
strlen-behind [] x [] h = ground arith
strlen-behind [] x (y ∷ ys) h = ground arith
strlen-behind (w ∷ xs) x [] h = ground (arith, strlen-behind xs x [] h.1)
strlen-behind (w ∷ xs) x (y ∷ ys) h = ground (arith, strlen-behind xs x (y ∷ ys) h.1)

-- A message that is copied whole into a block of at least `len + 1` bytes, which is what the write
-- asks for, `x` being the byte of the block behind it: the write returns `len`, the buffer begins
-- with the message, and a zero is stored behind `x`, past the block if it has no more bytes. So the
-- string in the buffer is the message only if `x` happened to be 0; else it takes in `x`, and does not
-- end within a block of exactly the size that was asked for.
pub vmalloc_write_text :
    (k : Uaccess) (s : State) (block buf : List ℕ) (len x : ℕ) (rest : List ℕ)
    → IsMessage buf len
    → drop len block ≡ x ∷ rest
    → (k.copy_from_user block buf len).0 ≡ 0
    → let w = my_write k s (some block) buf len in
      let b = take len buf ++ x ∷ set rest 0 0 in
      (w.result ≡ pos len)
      × (w.state.device_buffer ≡ some b)
      × (w.overrun ≡ (length rest == 0))
      × (strlen b ≡ string_end len x rest)
unfolding my_write
vmalloc_write_text k s block buf len x rest m room whole =
    let size : length (take len buf) ≡ len = omega (arith, length-take len buf, m.in_memory) in
    let fits : len ≤ length block = omega (arith, length-drop len block, ap length room) in
    let all : len - 0 ≡ len = omega arith in
    let copied : (k.copy_from_user block buf len).1 ≡ take len buf ++ x ∷ rest =
      k.from_copied block buf len fits ∙ rw (whole, all, room) refl in
    let stored : set (take len buf ++ x ∷ rest) (suc len) 0 ≡ take len buf ++ x ∷ set rest 0 0 =
      rw size at (set-behind (take len buf) x 0 rest) in
    let total : length (take len buf ++ x ∷ rest) ≡ len + suc (length rest) =
      omega (arith, length-append (take len buf) (x ∷ rest), size) in
    rw (whole, copied, stored, total)
      (refl, refl, ground arith, rw size at (strlen-behind (take len buf) x rest m.text))

-- What a read returns when the plain character device returns `r`: the user's own `len` in place of
-- the number of bytes that were copied.
abbrev pub claimed : ℕ → ReadOutcome → ReadOutcome
claimed len r = record r {
  result = elim r.result [ pos n ↦ if n == 0 then pos 0 else pos len | negsuc n ↦ negsuc n ];
}

read-expected :
    (k : Uaccess) (s : State) (b buf : List ℕ) (len offset : ℕ) {n : ℕ}
    → s.device_buffer ≡ some b
    → strlen b ≡ some n
    → my_read k s buf len offset ≡ some (claimed len (expected_read k b buf n offset))
unfolding my_read
read-expected k s b buf len offset {n} h e = rw (h, my_read) (rw e (ground arith))

-- A read of a buffer that holds a string does what that of the plain character device does, but for
-- its result when it hands data out: it is the user's own `len`, whatever was copied.
pub vmalloc_read_claims :
    (k : Uaccess) (s : State) (b buf : List ℕ) (len offset : ℕ) {n : ℕ} {r : ReadOutcome}
    → s.device_buffer ≡ some b
    → strlen b ≡ some n
    → Chardev.my_read k b buf len offset ≡ some r
    → my_read k s buf len offset ≡ some (claimed len r)
vmalloc_read_claims k s b buf len offset {n} {r} h e plain =
    read-expected k s b buf len offset h e
    ∙ ap (λ o. elim o [ none ↦ none | some q ↦ some (claimed len q) ])
        (sym (my_read_lem k b buf len offset e) ∙ plain)
