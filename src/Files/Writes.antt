-- ===== src/Files/Writes.antt =====
-- Each kind of `my_write` does to the buffer what the plain character device does; what it answers is
-- its own.
use kernel_driver_lab.Prelude.{
  ℕ, ◌≡◌, refl, ℤ, pos, efault, einval, Bool, true, false, not, if◌then◌else◌, Option, none, some,
  List, [], ◌∷◌, ◌++◌, set, take,
}
use kernel_driver_lab.Chardev.{safe_len, strlen}
use kernel_driver_lab.Chardev.UserMemory.{Uaccess}
use kernel_driver_lab.LinkedList.{next_value}
use kernel_driver_lab.Files.{
  Line, message, received, age, marks, id, sending, send_failed, State, ◌>>=◌, ◌>>◌, return,
  return_if, unless, printk, printk_text, memory_granted, add_node,
}
use kernel_driver_lab.Files.Refines.{
  logs_text, Ends, Answer, WritesAs, AsEnded, AsHanded, writes_as,
}
use kernel_driver_lab.Files.Handlers.{
  log_write, short_write, list_write, slab_write, signal_write, signal_task,
}

abbrev pub answer_count : Answer
answer_count granted task count = count

abbrev pub answer_node : Answer
answer_node granted task count = if granted then count else einval

abbrev pub answer_object : Answer
answer_object granted task count = if granted then count else efault

abbrev pub answer_signal : Answer
answer_signal granted none count = pos 1
answer_signal granted (some p) count = count

-- The state of a write in which the terminator stands, with more lines in the log.
abbrev stored : State → ℕ → List Line → State
stored s n log = record s { buffer = set s.buffer (safe_len n) 0; log = log }

-- The branches of single handlers, for each answer that they branch on.
sent_as :
    (s : State) (n m : ℕ) (taken : Bool)
    → strlen s.buffer ≡ some m
    → Ends
        ((do unless taken (printk send_failed); printk_text message; return {A = ℤ} (pos n)) s)
        (AsHanded s n)
sent_as s n m true e =
    logs_text (AsHanded s n) message (return (pos n)) s e (refl, refl, refl, refl)
sent_as s n m false e =
    logs_text (AsHanded s n) message (return (pos n))
      (record s { log = s.log ++ (send_failed ∷ []) }) e (refl, refl, refl, refl)

signalled_as :
    (s : State) (n m : ℕ) (task : Option ℕ)
    → strlen s.buffer ≡ some m
    → Ends (signal_task n task s) (λ r t.
      (r ≡ answer_signal true task (pos n))
      × (t.buffer ≡ s.buffer)
      × (t.user ≡ s.user)
      × (t.offset ≡ s.offset))
signalled_as s n m none e = (refl, refl, refl, refl)
signalled_as s n m (some p) e =
    sent_as (record s { log = s.log ++ (sending ∷ []); signalled = p ∷ s.signalled }) n m
      s.signal_taken e

node_as :
    (s : State) (n m : ℕ) (granted : Bool)
    → strlen s.buffer ≡ some m
    → Ends
        ((do return_if (not granted) einval; add_node; printk_text message; return {A = ℤ} (pos n))
          s)
        (λ r t.
          (r ≡ answer_node granted s.task (pos n))
          × (t.buffer ≡ s.buffer)
          × (t.user ≡ s.user)
          × (t.offset ≡ s.offset))
node_as s n m true e =
    logs_text
      (λ r t. (r ≡ pos n) × (t.buffer ≡ s.buffer) × (t.user ≡ s.user) × (t.offset ≡ s.offset))
      message (return (pos n))
      (record s {
        nodes = s.nodes ++ (next_value s.temp_value ∷ []);
        temp_value = next_value s.temp_value;
      })
      e (refl, refl, refl, refl)
node_as s n m false e = (refl, refl, refl, refl)

object_as :
    (s : State) (n : ℕ) (granted : Bool)
    → Ends
        ((do
          return_if (not granted) efault
          printk (age 23)
          printk (marks 66)
          printk (id 63)
          return {A = ℤ} (pos n))
          s)
        (λ r t.
          (r ≡ answer_object granted s.task (pos n))
          × (t.buffer ≡ s.buffer)
          × (t.user ≡ s.user)
          × (t.offset ≡ s.offset))
object_as s n true = (refl, refl, refl, refl)
object_as s n false = (refl, refl, refl, refl)

module _ (k : Uaccess) where
  pub log_write-WritesAs : WritesAs k answer_count (log_write k)
  unfolding log_write
  log_write-WritesAs = writes_as k answer_count _ (λ s n m e.
      logs_text (AsEnded answer_count s n) message (return (pos n))
        (stored s n (s.log ++ (received n ∷ []))) e (refl, refl, refl, refl))

  pub short_write-WritesAs : WritesAs k answer_count (short_write k)
  unfolding short_write
  short_write-WritesAs = writes_as k answer_count _ (λ s n m e.
      logs_text (AsEnded answer_count s n) message (return (pos n)) (stored s n s.log) e
        (refl, refl, refl, refl))

  pub list_write-WritesAs : WritesAs k answer_node (list_write k)
  unfolding list_write
  list_write-WritesAs =
      writes_as k answer_node _ (λ s n m e. node_as (stored s n s.log) n m s.memory_granted e)

  pub slab_write-WritesAs : WritesAs k answer_object (slab_write k)
  unfolding slab_write
  slab_write-WritesAs = writes_as k answer_object _ (λ s n m e.
      let s' = stored s n (s.log ++ (received n ∷ [])) in
      logs_text (AsEnded answer_object s n) message
        (do
          granted ← memory_granted
          return_if (not granted) efault
          printk (age 23)
          printk (marks 66)
          printk (id 63)
          return (pos n))
        s' e
        (object_as (record s' { log = s'.log ++ (message (take m s'.buffer) ∷ []) }) n
          s.memory_granted))

  pub signal_write-WritesAs : WritesAs k answer_signal (signal_write k)
  unfolding signal_write
  signal_write-WritesAs =
      writes_as k answer_signal _ (λ s n m e. signalled_as (stored s n s.log) n m s.task e)
