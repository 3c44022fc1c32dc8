-- ===== src/Procfs/Tests.antt =====
-- The theorem on the procfs module at concrete inputs.
use kernel_driver_lab.Prelude.{◌≡◌, some, List, [], ◌∷◌}
use kernel_driver_lab.Chardev.UserMemory.{whole_memory}
use kernel_driver_lab.Vmalloc
use kernel_driver_lab.Vmalloc.{held}
use kernel_driver_lab.Vmalloc.Blocks
use kernel_driver_lab.Vmalloc.Blocks.{Call}
use kernel_driver_lab.Procfs.{loaded, free_buffer}
use kernel_driver_lab.Procfs.Blocks.{run, procfs_refines_vmalloc}

-- Two writes, of which the second one finds no memory behind its first byte.
abbrev calls : List Call
calls =
    record { block = some (1 ∷ 2 ∷ 3 ∷ []); buf = 72 ∷ 105 ∷ []; len = 2 }
    ∷ record { block = some (1 ∷ 2 ∷ 3 ∷ []); buf = 72 ∷ []; len = 2 }
    ∷ []

procfs_refines_vmalloc_example :
    let s = run whole_memory loaded calls in
    (s.proc_buffer ≡ (Vmalloc.Blocks.run whole_memory Vmalloc.loaded calls).device_buffer)
    × (s.allocated ≡ held s.proc_buffer)
    × ((free_buffer s).allocated ≡ 0)
procfs_refines_vmalloc_example = procfs_refines_vmalloc whole_memory calls
