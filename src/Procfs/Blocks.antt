-- ===== src/Procfs/Blocks.antt =====
-- What the writes leave allocated, and how they compare with those of the vmalloc module.
use kernel_driver_lab.Prelude.{ℕ, ◌≡◌, refl, Option, none, some, List, [], ◌∷◌, arith}
use kernel_driver_lab.Chardev.UserMemory.{Uaccess}
use kernel_driver_lab.Vmalloc
use kernel_driver_lab.Vmalloc.{held}
use kernel_driver_lab.Vmalloc.Blocks
use kernel_driver_lab.Vmalloc.Blocks.{Call}
use kernel_driver_lab.Procfs.{State, loaded, proc_write, free_buffer}

abbrev pub run : Uaccess → State → List Call → State
run k s [] = s
run k s (c ∷ cs) = run k (proc_write k s c.block c.buf c.len).state cs

-- One block for the pointer, and no other.
abbrev pub IsLean : State → Type 0
IsLean s = s.allocated ≡ held s.proc_buffer

write-IsLean :
    (k : Uaccess) (s : State) (block : Option (List ℕ)) (buf : List ℕ) (len : ℕ)
    → IsLean s
    → IsLean (proc_write k s block buf len).state
unfolding proc_write
write-IsLean k s none buf len h = ground arith
write-IsLean k s (some b) buf len h = ground arith

run-IsLean : (k : Uaccess) (s : State) (cs : List Call) → IsLean s → IsLean (run k s cs)
run-IsLean k s [] h = h
run-IsLean k s (c ∷ cs) h =
    run-IsLean k (proc_write k s c.block c.buf c.len).state cs
      (write-IsLean k s c.block c.buf c.len h)

write_buffer :
    (k : Uaccess) (s : State) (v : Vmalloc.State) (block : Option (List ℕ)) (buf : List ℕ) (len : ℕ)
    → let p = proc_write k s block buf len in
      let w = Vmalloc.my_write k v block buf len in
      (p.state.proc_buffer ≡ w.state.device_buffer) × (p.overrun ≡ w.overrun)
unfolding proc_write Vmalloc.my_write
write_buffer k s v none buf len = ground arith
write_buffer k s v (some b) buf len = ground arith

run_buffer :
    (k : Uaccess) (s : State) (v : Vmalloc.State) (cs : List Call)
    → s.proc_buffer ≡ v.device_buffer
    → (run k s cs).proc_buffer ≡ (Vmalloc.Blocks.run k v cs).device_buffer
run_buffer k s v [] h = h
run_buffer k s v (c ∷ cs) h =
    run_buffer k (proc_write k s c.block c.buf c.len).state
      (Vmalloc.my_write k v c.block c.buf c.len).state cs (write_buffer k s v c.block c.buf c.len).0

-- After any writes, whatever fails on the way: the buffer is the one that the same writes leave in the
-- vmalloc module; one block is allocated if the pointer has one, else none; and unloading leaves no
-- block allocated.
pub procfs_refines_vmalloc :
    (k : Uaccess) (cs : List Call)
    → let s = run k loaded cs in
      (s.proc_buffer ≡ (Vmalloc.Blocks.run k Vmalloc.loaded cs).device_buffer)
      × (s.allocated ≡ held s.proc_buffer)
      × ((free_buffer s).allocated ≡ 0)
unfolding free_buffer
procfs_refines_vmalloc k cs =
    let lean = run-IsLean k loaded cs refl in
    (run_buffer k loaded Vmalloc.loaded cs refl, lean, omega (arith, lean))
