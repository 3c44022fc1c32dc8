-- ===== src/LinkedList/Tests.antt =====
-- The theorems on the linked list at concrete inputs.
use kernel_driver_lab.Prelude.{◌≡◌, refl, true, false, List, [], ◌∷◌, ◌++◌}
use kernel_driver_lab.Module.{resource_tagged}
use kernel_driver_lab.Chardev.{device_buffer}
use kernel_driver_lab.Chardev.UserMemory.{whole_memory}
use kernel_driver_lab.LinkedList.{Request, my_write, loaded}
use kernel_driver_lab.Ledger.{replay, nothing}
use kernel_driver_lab.LinkedList.Memory.{Node, node_tagged, write_nodes, free_nodes}
use kernel_driver_lab.LinkedList.Memory.Freed.{nodes_from, newest, fresh, nodes_freed}
use kernel_driver_lab.LinkedList.Nodes.{run}

abbrev request : Request
request = record { buf = 72 ∷ []; len = 1; node_granted = true }

-- Of four writes one has no node and one has memory that is too short.
abbrev requests : List Request
requests =
    request ∷ record request { node_granted = false } ∷ record request { len = 3 } ∷ request ∷ []

run_two : (run whole_memory (loaded device_buffer) requests).1 ≡ 2
unfolding run my_write whole_memory
run_two = refl

nodes_freed_example :
    let (m, events) = write_nodes whole_memory (fresh whole_memory device_buffer) requests in
    (m.list ≡ nodes_from 0 m.allocated)
    × (replay (nothing Node) events ≡ record { held = newest 0 m.allocated; faults = [] })
    × (replay (nothing Node) (events ++ (free_nodes m.list).1) ≡ nothing Node)
    × ((free_nodes m.list).0 ≡ [])
nodes_freed_example = nodes_freed whole_memory device_buffer requests
