-- ===== src/Export/Reads.antt =====
-- The exported counter counts the reads of the second module that hand data out.
use kernel_driver_lab.Prelude.{
  ℕ, suc, ◌+◌, ◌%◌, ◌^◌, ◌<◌, ◌≡◌, ◌∙◌, pos, negsuc, Bool, false, leb, if◌then◌else◌, Option, none,
  some, List, [], ◌∷◌, arith, Bool-cases, inl, inr,
}
use kernel_driver_lab.Chardev
use kernel_driver_lab.Chardev.{strlen, ReadOutcome}
use kernel_driver_lab.Chardev.UserMemory.{Uaccess}
use kernel_driver_lab.Export.{my_read, extern_shared_function}

-- A read: the user's memory, the length, the offset.
pub record Read : Type 0 where
  pub buf : List ℕ
  pub len : ℕ
  pub offset : ℕ

-- Whether a read hands data out.
abbrev pub delivers : Option ReadOutcome → Bool
delivers none = false
delivers (some o) = elim o.result [ pos n ↦ leb 1 n | negsuc n ↦ false ]

-- The buffer after a read
abbrev pub kept : List ℕ → Option ReadOutcome → List ℕ
kept buffer none = buffer
kept buffer (some o) = o.buffer

module _ (k : Uaccess) where
  -- The counter after some reads, in order
  abbrev pub run : ℕ → List ℕ → List Read → ℕ
  run v buffer [] = v
  run v buffer (r ∷ rs) =
      let (outcome, v') = my_read k v buffer r.buf r.len r.offset in run v' (kept buffer outcome) rs

  -- How many of the same reads hand data out in the plain character device
  abbrev pub deliveries : List ℕ → List Read → ℕ
  deliveries buffer [] = 0
  deliveries buffer (r ∷ rs) =
      let outcome = Chardev.my_read k buffer r.buf r.len r.offset in
      let rest = deliveries (kept buffer outcome) rs in if delivers outcome then suc rest else rest

read_plain :
    (k : Uaccess) (v : ℕ) (buffer buf : List ℕ) (len offset : ℕ)
    → let (outcome, v') = my_read k v buffer buf len offset in
      let plain = Chardev.my_read k buffer buf len offset in
      (outcome ≡ plain) × (v' ≡ (if delivers plain then extern_shared_function v else v))
unfolding my_read Chardev.my_read
read_plain k v buffer buf len offset = ground arith

-- After any reads of the second module, the variable that the first one exports has grown by the number
-- of those that the plain character device would answer with data, modulo 2^32: reads at the end of the
-- text and reads that fail do not count.
pub export_counts :
    (k : Uaccess) (v : ℕ) (buffer : List ℕ) (rs : List Read)
    → v < 2 ^ 32
    → run k v buffer rs ≡ (v + deliveries k buffer rs) % 2 ^ 32
unfolding extern_shared_function
export_counts k v buffer [] h = omega (arith, h)
export_counts k v buffer (r ∷ rs) h =
    let plain = Chardev.my_read k buffer r.buf r.len r.offset in
    let (outcome, counter) = read_plain k v buffer r.buf r.len r.offset in
    elim (Bool-cases (delivers plain)) [
      | inl e ↦
          rw (outcome, counter, e)
            (export_counts k ((v + 1) % 2 ^ 32) (kept buffer plain) rs (omega arith) ∙ omega arith)
      | inr e ↦ rw (outcome, counter, e) (export_counts k v (kept buffer plain) rs h)
    ]
