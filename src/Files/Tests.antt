-- ===== src/Files/Tests.antt =====
-- The files of two modules at a message that one process writes and another reads.
use kernel_driver_lab.Prelude.{ℕ, ◌≡◌, true, false, none, some, List, [], ◌∷◌}
use kernel_driver_lab.Chardev.UserMemory.{whole_memory}
use kernel_driver_lab.Files.{State}
use kernel_driver_lab.Files.Table.{tasklet_module}
use kernel_driver_lab.Files.Serving.{
  World, Call, opens, writes, reads, releases, Reply, serve_all, TextRun, view, fresh,
}
use kernel_driver_lab.Files.Serving.Simulation.{serving_refines_text}

-- The variables around a call, by the user's memory and what `kmalloc` answers
abbrev around : List ℕ → State
around user = record {
  buffer = [];
  user = user;
  offset = 0;
  log = [];
  wait_flag = 0;
  wakes = 0;
  done = 0;
  nodes = [];
  temp_value = 0;
  memory_granted = false;
  shared_variable = 0;
  task = none;
  signalled = [];
  signal_taken = true;
}

-- File 1 writes "Hi", file 2 reads it twice, file 1 fails to write five bytes of two.
abbrev calls : List Call
calls =
    opens 1 (around [])
    ∷ opens 2 (around [])
    ∷ writes 1 (72 ∷ 105 ∷ []) 2 (around [])
    ∷ reads 2 (around (7 ∷ 7 ∷ 7 ∷ []))
    ∷ reads 2 (around (7 ∷ 7 ∷ 7 ∷ []))
    ∷ writes 1 (65 ∷ 66 ∷ []) 5 (around [])
    ∷ releases 1 (around [])
    ∷ []

serving_refines_text_example :
    (replies : List Reply) × (last : World) × (serve_all whole_memory tasklet_module fresh calls
      ≡ some (replies, last))
    × TextRun tasklet_module (record { text = []; offsets = λ file. 0 }) calls replies (view last)
serving_refines_text_example = serving_refines_text whole_memory tasklet_module calls
