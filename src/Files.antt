-- ===== src/Files.antt =====
-- The files that the modules show in /dev: the handlers of each module as programs over the variables
-- that they touch. A handler may return early, and a text that is read past its array is a fault.
pub mod Handlers
pub mod Table
pub mod Text
pub mod Steps
pub mod Refines
pub mod Writes
pub mod Reads
pub mod Every
pub mod Serving
mod Tests
use kernel_driver_lab.Prelude.{
  ℕ, suc, ◌+◌, ◌%◌, ◌^◌, ℤ, pos, efault, einval, Bool, not, ltb, leb, ◌==◌, if◌then◌else◌, Option,
  none, some, List, [], ◌∷◌, ◌++◌, set, take,
}
use kernel_driver_lab.Chardev.{to_copy, safe_len, strlen}
use kernel_driver_lab.Chardev.UserMemory.{Uaccess}
use kernel_driver_lab.LinkedList.{next_value, log_nodes}
use kernel_driver_lab.Export.{extern_shared_function}

-- What a handler logs, the kinds of line that the modules use, with the values in them.
pub data Line : Type 0 where
  opened : Line  -- "OPEN FUNC", "OPEN FUNCTION" or "hello from open function"
  released : Line  -- "RELEASE FUNC" and the like
  received : ℕ → Line  -- "rev %zu from user"
  message : List ℕ → Line  -- "MESSAGE : %s"
  begins : Line  -- "-READ FN --" or "Reading functins begins"
  here_is : List ℕ → Line  -- "Here is : %s"
  node : ℕ → ℕ → Line  -- "node : %d data = %d"
  seems_completed : Line  -- "SEEMS TO COMPLETED"
  bye : Line  -- "BYE FROM READ FUNCTION"
  shared_value : ℕ → Line  -- "SEC FILE VALUE OF SHARED_VARIBALE :%d"
  age : ℕ → Line
  marks : ℕ → Line
  id : ℕ → Line
  no_task : Line
  sending : Line  -- "SEDING SIG TO APP"
  send_failed : Line

-- The variables: the buffer, the memory of the user who reads, `*offset`, the kernel's log, and those
-- of single modules.
pub record State : Type 0 where
  pub buffer : List ℕ  -- device_buffer
  pub user : List ℕ
  pub offset : ℕ
  pub log : List Line  -- the newest line last
  pub wait_flag : ℕ  -- wait_flag, wait_queue_flag
  pub wakes : ℕ  -- calls of wake_up_interruptible
  pub done : ℕ  -- completion_work
  pub nodes : List ℕ  -- the list at head_node
  pub temp_value : ℕ  -- int, as its 32 bits
  pub memory_granted : Bool  -- what `kmalloc` or `kmem_cache_alloc` answers next
  pub shared_variable : ℕ  -- int, as its 32 bits
  pub task : Option ℕ  -- the process to signal, by its number
  pub signalled : List ℕ  -- the processes that `send_sig_info` was called for
  pub signal_taken : Bool  -- what `send_sig_info` answers next

pub data Outcome (A : Type 0) : Type 0 where
  next : A → State → Outcome A
  returned : ℤ → State → Outcome A
  fault : Outcome A

abbrev pub M : Type 0 → Type 0
M A = State → Outcome A

infixl 5 ◌>>=◌ ◌>>◌
abbrev pub ◌>>=◌ : {A B : Type 0} → M A → (A → M B) → M B
◌>>=◌ m f s = elim (m s) [ next a s' ↦ f a s' | returned r s' ↦ returned r s' | fault ↦ fault ]

abbrev pub ◌>>◌ : {B : Type 0} → M (Unit {0}) → M B → M B
m >> n = m >>= λ _. n

-- `return r`, at the end of a handler or before it
abbrev pub return : {A : Type 0} → ℤ → M A
return r s = returned r s

abbrev pub return_if : Bool → ℤ → M (Unit {0})
return_if b r s = if b then returned r s else next tt s

abbrev pub nothing : M (Unit {0})
nothing s = next tt s

abbrev pub unless : Bool → M (Unit {0}) → M (Unit {0})
unless b m s = if b then next tt s else m s

abbrev pub printk : Line → M (Unit {0})
printk line s = next tt (record s { log = s.log ++ (line ∷ []) })

-- `strlen(device_buffer)`
abbrev pub length_of_text : M ℕ
length_of_text s = elim (strlen s.buffer) [ none ↦ fault | some n ↦ next n s ]

-- A line with `device_buffer` under %s
abbrev pub printk_text : (List ℕ → Line) → M (Unit {0})
printk_text line = do n ← length_of_text; λ s. printk (line (take n s.buffer)) s

-- `device_buffer[n] = '\0'`
abbrev pub terminate : ℕ → M (Unit {0})
terminate n s = next tt (record s { buffer = set s.buffer n 0 })

abbrev pub file_offset : M ℕ
file_offset s = next s.offset s

abbrev pub advance : ℕ → M (Unit {0})
advance n s = next tt (record s { offset = s.offset + n })

abbrev pub wake_up_interruptible : M (Unit {0})
wake_up_interruptible s = next tt (record s { wakes = suc s.wakes })

abbrev pub memory_granted : M Bool
memory_granted s = next s.memory_granted s

-- `new_node->data = temp_value += 1`, and `list_add_tail`
abbrev pub add_node : M (Unit {0})
add_node s = next tt (record s {
  nodes = s.nodes ++ (next_value s.temp_value ∷ []);
  temp_value = next_value s.temp_value;
})

-- The loop over the list: a line for each node
abbrev pub node_lines : List (ℕ × ℕ) → List Line
node_lines [] = []
node_lines ((count, value) ∷ rest) = node count value ∷ node_lines rest

abbrev pub log_list : M (Unit {0})
log_list s = next tt (record s { log = s.log ++ node_lines (log_nodes 0 s.nodes) })

-- `extern_shared_function()`, and the line that shows its variable
abbrev pub count_read : M (Unit {0})
count_read = do
  λ s. next tt (record s { shared_variable = extern_shared_function s.shared_variable })
  λ s. printk (shared_value s.shared_variable) s

abbrev pub task_to_signal : M (Option ℕ)
task_to_signal s = next s.task s

abbrev pub send_sig_info : ℕ → M Bool
send_sig_info p s = next s.signal_taken (record s { signalled = p ∷ s.signalled })

abbrev pub set_flag : ℕ → M (Unit {0})
set_flag v s = next tt (record s { wait_flag = v })

abbrev pub completion_done : M Bool
completion_done s = next (not (s.done == 0)) s

abbrev pub complete : M (Unit {0})
complete s = next tt (record s { done = suc s.done })

-- How each `my_read` begins: the length of the text, or 0 at its end.
unfoldable pub text_ahead : M ℕ
text_ahead = do
  length ← length_of_text
  offset ← file_offset
  return_if (leb length offset) (pos 0)
  λ s. next length s

module _ (k : Uaccess) where
  -- `copy_from_user(device_buffer, buf, n)`
  abbrev pub from_user : List ℕ → ℕ → M ℕ
  from_user buf n s =
      let (left, copied) = k.copy_from_user s.buffer buf n in
      next left (record s { buffer = copied })

  -- `copy_to_user(buf, device_buffer, n)`
  abbrev pub to_user : ℕ → M ℕ
  to_user n s =
      let (left, user) = k.copy_to_user s.user s.buffer n in next left (record s { user = user })

  -- `copy_to_user(buf, text, n)` for a constant of the module
  abbrev pub constant_to_user : List ℕ → ℕ → M ℕ
  constant_to_user constant n s =
      let (left, user) = k.copy_to_user s.user constant n in next left (record s { user = user })

  -- How each `my_write` begins: the message in the buffer, or -EFAULT. It gives `to_copy`.
  unfoldable pub take_message : List ℕ → ℕ → M ℕ
  take_message buf len = do
    left ← from_user buf (to_copy len)
    return_if (not (left == 0)) efault
    λ s. next (to_copy len) s

  -- How each `my_read` goes on once it has the length of the text: the whole text to the user, or
  -- -EFAULT.
  unfoldable pub hand_out : ℕ → M (Unit {0})
  hand_out length = do
    terminate length
    left ← to_user length
    return_if (not (left == 0)) efault
    advance length

-- What a handler returns and leaves; `none` is a text that is read past its array.
abbrev pub settle : Outcome ℤ → Option (ℤ × State)
settle (next r s) = some (r, s)
settle (returned r s) = some (r, s)
settle fault = none

abbrev pub run : M ℤ → State → Option (ℤ × State)
run m s = settle (m s)
