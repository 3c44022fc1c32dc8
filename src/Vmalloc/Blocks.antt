-- ===== src/Vmalloc/Blocks.antt =====
-- How many blocks the module loses.
use kernel_driver_lab.Prelude.{ℕ, ◌+◌, ◌≡◌, Option, none, some, List, [], ◌∷◌, arith}
use kernel_driver_lab.Chardev.UserMemory.{Uaccess}
use kernel_driver_lab.Vmalloc.{State, loaded, held, my_write, vmalloc_exit}

-- A call of `my_write`: what `vmalloc` returns, and the arguments.
pub record Call : Type 0 where
  pub block : Option (List ℕ)
  pub buf : List ℕ
  pub len : ℕ

abbrev pub run : Uaccess → State → List Call → State
run k s [] = s
run k s (c ∷ cs) = run k (my_write k s c.block c.buf c.len).state cs

-- How many of the calls were granted a block.
abbrev pub granted : List Call → ℕ
granted [] = 0
granted (c ∷ cs) = held c.block + granted cs

abbrev pub allocated : State → ℕ
allocated s = s.lost + held s.device_buffer

write-allocated :
    (k : Uaccess) (s : State) (block : Option (List ℕ)) (buf : List ℕ) (len : ℕ)
    → allocated (my_write k s block buf len).state ≡ allocated s + held block
unfolding my_write
write-allocated k s none buf len = ground arith
write-allocated k s (some b) buf len = ground arith

run-allocated :
    (k : Uaccess) (s : State) (cs : List Call) → allocated (run k s cs) ≡ allocated s + granted cs
run-allocated k s [] = omega arith
run-allocated k s (c ∷ cs) = omega (
  arith,
  write-allocated k s c.block c.buf c.len,
  run-allocated k (my_write k s c.block c.buf c.len).state cs,
)

-- After any writes to a freshly loaded module, whatever fails on the way, unloading frees one block
-- at most: of all the blocks that were granted, the one of the last write, if it was granted.
pub blocks_lost :
    (k : Uaccess) (cs : List Call)
    → allocated (vmalloc_exit (run k loaded cs)) + held (run k loaded cs).device_buffer ≡ granted cs
unfolding vmalloc_exit
blocks_lost k cs = omega (arith, run-allocated k loaded cs)
