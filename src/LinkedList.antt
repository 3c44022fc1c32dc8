-- ===== src/LinkedList.antt =====
-- k_linked_list-17/linked_list.c: a character device that adds a node to a list at each write, and
-- logs the list at each read.
pub mod Nodes
pub mod Memory
mod Tests
use kernel_driver_lab.Prelude.{
  ℕ, suc, ◌+◌, ◌%◌, ◌^◌, ℤ, pos, efault, einval, Bool, not, leb, ◌==◌, if◌then◌else◌, Option, none,
  some, List, [], ◌∷◌, ◌++◌, set,
}
use kernel_driver_lab.Chardev.{to_copy, safe_len, strlen, ReadOutcome}
use kernel_driver_lab.Chardev.UserMemory.{Uaccess}

-- The static variables that the file operations use. A node of the list is its `data`.
pub record State : Type 0 where
  pub buffer : List ℕ  -- device_buffer
  pub nodes : List ℕ  -- the list at head_node, in order
  pub temp_value : ℕ  -- int, as its 32 bits

-- A call of `my_write`: the user's memory, the length, and whether `kmalloc` grants the node.
pub record Request : Type 0 where
  pub buf : List ℕ
  pub len : ℕ
  pub node_granted : Bool

-- `temp_value += 1`
abbrev pub next_value : ℕ → ℕ
next_value t = (t + 1) % 2 ^ 32

-- The lines that `list_for_each_entry` logs, from `count` on.
pub log_nodes : ℕ → List ℕ → List (ℕ × ℕ)
log_nodes count [] = []
log_nodes count (node ∷ nodes) = (count, node) ∷ log_nodes (count + 1) nodes

module _ (k : Uaccess) where
  unfoldable pub my_write : State → Request → ℤ × State
  my_write s q =
      let (left, copied) = k.copy_from_user s.buffer q.buf (to_copy q.len) in
      let ended = set copied (safe_len (to_copy q.len)) 0 in
      if not (left == 0)
      then (efault, record s { buffer = copied })
      else if not q.node_granted
      then (einval, record s { buffer = ended })
      else (
        pos (to_copy q.len),
        record {
          buffer = ended;
          nodes = s.nodes ++ (next_value s.temp_value ∷ []);
          temp_value = next_value s.temp_value;
        },
      )

  -- The outcome, as in `Chardev`, and the lines of the log. The branch under `length < 0` is never
  -- taken, since `length` is unsigned.
  unfoldable pub my_read : State → List ℕ → ℕ → ℕ → Option ReadOutcome × List (ℕ × ℕ)
  my_read s buf len offset = elim (strlen s.buffer) [
    | none ↦ (none, [])
    | some length ↦
        if leb length offset
        then (some (record { result = pos 0; offset = offset; user = buf; buffer = s.buffer }), [])
        else let ended = set s.buffer length 0 in
          let (left, user) = k.copy_to_user buf ended length in
          (
            some (
                if not (left == 0)
                then record { result = efault; offset = offset; user = user; buffer = ended }
                else record {
                  result = pos length;
                  offset = offset + length;
                  user = user;
                  buffer = ended;
                }),
            log_nodes 0 s.nodes,
          )
  ]

-- The state when the module is loaded
abbrev pub loaded : List ℕ → State
loaded buffer = record { buffer = buffer; nodes = []; temp_value = 0 }
