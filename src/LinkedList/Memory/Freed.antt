-- ===== src/LinkedList/Memory/Freed.antt =====
-- What is held after the writes and after the unloading.
use kernel_driver_lab.Prelude.{
  ℕ, zero, suc, ◌+◌, ◌≡◌, refl, ap, ◌∙◌, Bool, true, false, ◌==◌, if◌then◌else◌, List, [], ◌∷◌,
  ◌++◌, arith, Bool-cases, inl, inr,
}
use kernel_driver_lab.Ledger.{Ledger, replay, replay-append, holds, remove, nothing}
use kernel_driver_lab.Chardev.{to_copy}
use kernel_driver_lab.Chardev.UserMemory.{Uaccess}
use kernel_driver_lab.LinkedList.{Request, my_write, loaded}
use kernel_driver_lab.LinkedList.Memory.{
  Node, my_list, node_tagged, Memory, add_node, write_node, write_nodes, free_nodes,
}

-- The nodes with `n` numbers from `a` on, the first one first, and the last one first
abbrev pub nodes_from : ℕ → ℕ → List Node
nodes_from a zero = []
nodes_from a (suc n) = my_list a ∷ nodes_from (suc a) n

abbrev pub newest : ℕ → ℕ → List Node
newest a zero = []
newest a (suc n) = my_list (a + n) ∷ newest a n

nodes_from-append : (a n : ℕ) → nodes_from a n ++ (my_list (a + n) ∷ []) ≡ nodes_from a (suc n)
nodes_from-append a zero = ap (λ i. my_list i ∷ []) (omega arith)
nodes_from-append a (suc n) =
    ap (λ i. my_list a ∷ (nodes_from (suc a) n ++ (my_list i ∷ []))) (omega arith)
    ∙ ap (λ t. my_list a ∷ t) (nodes_from-append (suc a) n)

holds_oldest : (a n : ℕ) → holds (newest a (suc n)) (my_list a) ≡ true
holds_oldest a zero = ground arith
holds_oldest a (suc n) = ground (arith, holds_oldest a n)

remove_oldest : (a n : ℕ) → remove (newest a (suc n)) (my_list a) ≡ newest (suc a) n
remove_oldest a zero = ground arith
remove_oldest a (suc n) = ground (arith, remove_oldest a n)

abbrev holding : ℕ → ℕ → Ledger Node
holding a n = record { held = newest a n; faults = [] }

freed : (a n : ℕ) → replay (holding a n) (free_nodes (nodes_from a n)).1 ≡ nothing Node
unfolding free_nodes
freed a zero = refl
freed a (suc n) =
    ap (λ l. replay l (free_nodes (nodes_from (suc a) n)).1)
      (first (holds (newest a (suc n)) (my_list a)) (holds_oldest a n))
    ∙ freed (suc a) n
  where
    first :
        (b : Bool)
        → b ≡ true
        → (if b
            then record (holding a (suc n)) { held = remove (newest a (suc n)) (my_list a) }
            else record (holding a (suc n)) { faults = my_list a ∷ [] })
          ≡ holding (suc a) n
    first true e = ap (λ h. record { held = h; faults = [] }) (remove_oldest a n)
    first false e = cc

freed_list : (nodes : List Node) → (free_nodes nodes).0 ≡ []
unfolding free_nodes
freed_list [] = refl
freed_list (cursor ∷ rest) = freed_list rest

-- The list has the nodes that were allocated, in order.
abbrev IsOrdered : Memory → Type 0
IsOrdered m = m.list ≡ nodes_from 0 m.allocated

added :
    (m : Memory) (granted : Bool)
    → IsOrdered m
    → IsOrdered (add_node m granted).0
      × (replay (holding 0 m.allocated) (add_node m granted).1
          ≡ holding 0 (add_node m granted).0.allocated)
added m true h = (
  ap (λ l. l ++ (my_list m.allocated ∷ [])) h
      ∙ ap (λ i. nodes_from 0 m.allocated ++ (my_list i ∷ [])) (omega arith)
      ∙ nodes_from-append 0 m.allocated,
  ap (λ i. record { held = my_list i ∷ newest 0 m.allocated; faults = [] }) (omega arith),
)
added m false h = (h, refl)

module _ (k : Uaccess) where
  written :
      (m : Memory) (q : Request)
      → IsOrdered m
      → IsOrdered (write_node k m q).0
        × (replay (holding 0 m.allocated) (write_node k m q).1
            ≡ holding 0 (write_node k m q).0.allocated)
  unfolding write_node
  written m q h =
      elim (Bool-cases ((k.copy_from_user m.state.buffer q.buf (to_copy q.len)).0 == 0)) [
        | inl whole ↦
            rw whole (added (record m { state = (my_write k m.state q).1 }) q.node_granted h)
        | inr short ↦ rw short (h, refl)
      ]

  all_written :
      (m : Memory) (qs : List Request)
      → IsOrdered m
      → IsOrdered (write_nodes k m qs).0
        × (replay (holding 0 m.allocated) (write_nodes k m qs).1
            ≡ holding 0 (write_nodes k m qs).0.allocated)
  unfolding write_nodes
  all_written m [] h = (h, refl)
  all_written m (q ∷ qs) h =
      let (ordered, one) = written m q h in
      let (last, rest) = all_written (write_node k m q).0 qs ordered in
      (
        last,
        replay-append (holding 0 m.allocated) (write_node k m q).1
              (write_nodes k (write_node k m q).0 qs).1
            ∙ ap (λ l. replay l (write_nodes k (write_node k m q).0 qs).1) one
            ∙ rest,
      )

  abbrev pub fresh : List ℕ → Memory
  fresh buffer = record { state = loaded buffer; list = []; allocated = 0 }

  -- After any writes to a freshly loaded module, whatever fails on the way, the memory that the module
  -- holds is that of the nodes in its list; and the loop of hello_exit then frees each of them once,
  -- nothing else, and leaves the list empty.
  pub nodes_freed :
      (buffer : List ℕ) (qs : List Request)
      → let (m, events) = write_nodes k (fresh buffer) qs in
        (m.list ≡ nodes_from 0 m.allocated)
        × (replay (nothing Node) events ≡ record { held = newest 0 m.allocated; faults = [] })
        × (replay (nothing Node) (events ++ (free_nodes m.list).1) ≡ nothing Node)
        × ((free_nodes m.list).0 ≡ [])
  nodes_freed buffer qs =
      let (ordered, held) = all_written (fresh buffer) qs refl in
      let (m, events) = write_nodes k (fresh buffer) qs in
      (
        ordered,
        held,
        replay-append (nothing Node) events (free_nodes m.list).1
            ∙ ap (λ l. replay l (free_nodes m.list).1) held
            ∙ ap (λ l. replay (holding 0 m.allocated) (free_nodes l).1) ordered
            ∙ freed 0 m.allocated,
        freed_list m.list,
      )
