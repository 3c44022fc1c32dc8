-- ===== src/LinkedList/Memory.antt =====
-- The memory of the nodes, in k_linked_list-17/linked_list.c and k_tasklet-18/tasklet_module.c: each
-- accepted write allocates one, and the loop in hello_exit takes each from the list and frees it.
pub mod Freed
use kernel_driver_lab.Prelude.{
  ℕ, zero, suc, ◌+◌, ◌≡◌, refl, sym, ap, ◌∙◌, ℤ, Bool, true, false, is_negative, not, ◌==◌,
  if◌then◌else◌, List, [], ◌∷◌, ◌++◌, length, arith, Tagged, same, Bool-cases, inl, inr,
}
use kernel_driver_lab.Ledger.{
  Event, obtain, deny, release, Run, ◌▷◌, pure, Ledger, replay, replay-append, holds, remove,
  nothing,
}
use kernel_driver_lab.Chardev.{to_copy}
use kernel_driver_lab.Chardev.UserMemory.{Uaccess}
use kernel_driver_lab.LinkedList.{State, Request, my_write, loaded}

-- A node by how many were allocated before it. Its address, which the kernel chooses, is not modelled.
pub data Node : Type 0 where
  my_list : ℕ → Node

abbrev pub number : Node → ℕ
number (my_list n) = n

pub number-injective : (a b : Node) → number a ≡ number b → a ≡ b
number-injective (my_list a) (my_list b) h = ap my_list h

instance abbrev pub node_tagged : Tagged Node
node_tagged = record { tag = number; tag-injective = number-injective }

-- The variables, the nodes in the list at `head_node`, in order, and how many were allocated
pub record Memory : Type 0 where
  pub state : State
  pub list : List Node
  pub allocated : ℕ

-- What `kmalloc` answers, where `my_write` comes to it, and what follows for the list
abbrev pub add_node : Memory → Bool → Run Node Memory
add_node m true =
    obtain (my_list m.allocated)
    ▷ pure (record m { list = m.list ++ (my_list m.allocated ∷ []); allocated = suc m.allocated })
add_node m false = deny (my_list m.allocated) ▷ pure m

module _ (k : Uaccess) where
  -- `my_write`: as in `LinkedList`, with the call of `kmalloc`
  unfoldable pub write_node : Memory → Request → Run Node Memory
  write_node m q =
      let state = (my_write k m.state q).1 in
      if (k.copy_from_user m.state.buffer q.buf (to_copy q.len)).0 == 0
      then add_node (record m { state = state }) q.node_granted
      else pure (record m { state = state })

  -- The writes of a client, in order
  unfoldable pub write_nodes : Memory → List Request → Run Node Memory
  write_nodes m [] = pure m
  write_nodes m (q ∷ qs) =
      let first = write_node m q in let rest = write_nodes first.0 qs in (rest.0, first.1 ++ rest.1)

-- `list_for_each_entry_safe` in `hello_exit`: `list_del` and `kfree` for each node, from the first
unfoldable pub free_nodes : List Node → Run Node (List Node)
free_nodes [] = pure []
free_nodes (cursor ∷ rest) = release cursor ▷ free_nodes rest
