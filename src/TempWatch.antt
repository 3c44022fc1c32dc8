-- ===== src/TempWatch.antt =====
-- k_temp_watch-13/temp_watch.c: a thread that measures a temperature and raises an alarm, and the
-- files through which a user sets the threshold, reads the value and waits for the alarm.
pub mod Threshold
pub mod Alarm
mod Tests
use kernel_driver_lab.Prelude.{
  ℕ, ◌+◌, ◌%◌, ℤ, pos, negsuc, efault, einval, eperm, Bool, true, false, not, ◌&&◌, ltb, leb, ◌==◌,
  if◌then◌else◌, Option, none, some, List, [], ◌∷◌, length, set, replicate,
}
use kernel_driver_lab.Chardev
use kernel_driver_lab.Chardev.{ReadOutcome}
use kernel_driver_lab.Chardev.UserMemory.{Uaccess}

pub record State : Type 0 where
  pub threshold_value : ℤ
  pub temperature : ℕ
  pub wait_flag : ℕ  -- uint32_t
  pub device_buffer : List ℕ
  pub mutex_held : Bool  -- mutex_ref

-- What the file operations call: the copies to and from user memory, `kstrtoint(…, 10, …)`, with
-- `none` for a negative result, and the text that `snprintf(…, " %d\n", …)` leaves in its buffer.
pub record Kernel : Type 0 where
  pub uaccess : Uaccess
  pub kstrtoint : List ℕ → Option ℤ
  pub line : ℕ → List ℕ

-- `temperature > threshold_value`
abbrev pub exceeds : ℕ → ℤ → Bool
exceeds t (pos n) = ltb n t
exceeds t (negsuc n) = true

-- One round of `thread_function`, with the number that `get_random_u32` returns.
unfoldable pub thread_round : ℕ → State → State
thread_round random s =
    let t = random % 100 in
    if exceeds t s.threshold_value
    then record s { temperature = t; wait_flag = 2 }
    else record s { temperature = t }

-- What a call of a file operation returns, with the new state; `none` is a call that sleeps.
abbrev pub Reply : Type 0
Reply = Option (ℤ × State)

module _ (k : Kernel) where
  -- `threshold_write`. `kbuf` has 32 bytes; what it holds behind the end of the string is not read.
  unfoldable pub threshold_write : State → List ℕ → ℕ → Reply
  threshold_write s buf len =
      if s.mutex_held
      then none
      else let locked = record s { mutex_held = true } in
        if leb 32 len
        then some (einval, locked)
        else let (left, kbuf) = k.uaccess.copy_from_user (replicate 32 0) buf len in
          if not (left == 0) then some (efault, locked) else elim (k.kstrtoint (set kbuf len 0)) [
            | none ↦ some (einval, locked)
            | some value ↦ some (pos len, record s { threshold_value = value; mutex_held = false })
          ]

-- The directions that the files do not offer.
abbrev pub threshold_read : ℤ
threshold_read = eperm

abbrev pub wait_write : ℤ
wait_write = eperm

abbrev pub value_write : ℤ
value_write = eperm

-- A read that did not stop at the end of the file or fail.
abbrev pub handed_out : ℤ → Bool
handed_out (pos n) = not (n == 0)
handed_out (negsuc n) = false

-- What a read of a proc file leaves behind, with the new state.
pub record ProcRead : Type 0 where
  pub result : ℤ
  pub offset : ℕ
  pub user : List ℕ
  pub state : State

module _ (k : Kernel) where
  -- `wait_read`: the text is that of the constant 44. `none` is a reader that sleeps on the queue.
  -- `signal` is whether a signal interrupts the sleep: what wait_event_interruptible returns is not
  -- looked at, so that the reader then goes on as if it had been woken.
  unfoldable pub wait_read : (signal : Bool) → State → List ℕ → ℕ → Option ProcRead
  wait_read signal s buf offset =
      let text = k.line 44 in
      if leb (length text) offset
      then some (record { result = pos 0; offset = offset; user = buf; state = s })
      else if (s.wait_flag == 0) && not signal
      then none
      else if s.wait_flag == 2
      then (let (left, user) = k.uaccess.copy_to_user buf text (length text) in
          if not (left == 0)
          then some (record { result = efault; offset = offset; user = user; state = s })
          else some (record {
            result = pos (length text);
            offset = offset + length text;
            user = user;
            state = record s { wait_flag = 0 };
          }))
      else some (record {
        result = pos (length text);
        offset = offset + length text;
        user = buf;
        state = record s { wait_flag = 0 };
      })

  -- `value_read`
  unfoldable pub value_read : State → List ℕ → ℕ → ProcRead
  value_read s buf offset =
      let text = k.line s.temperature in
      if leb (length text) offset
      then record { result = pos 0; offset = offset; user = buf; state = s }
      else let (left, user) = k.uaccess.copy_to_user buf text (length text) in
        if not (left == 0)
        then record { result = efault; offset = offset; user = user; state = s }
        else record {
          result = pos (length text);
          offset = offset + length text;
          user = user;
          state = s;
        }

  -- `my_write`
  unfoldable pub my_write : State → List ℕ → ℕ → ℤ × State
  my_write s buf len =
      let (result, buffer) = Chardev.my_write k.uaccess s.device_buffer buf len in
      (result, record s { device_buffer = buffer })

  -- `my_read`: a read that hands data out wakes the readers of the alarm, with another flag.
  unfoldable pub my_read : State → List ℕ → ℕ → ℕ → Option ProcRead
  my_read s buf len offset = elim (Chardev.my_read k.uaccess s.device_buffer buf len offset) [
    | none ↦ none
    | some r ↦
        let woken = if handed_out r.result then 1 else s.wait_flag in
        some (record {
          result = r.result;
          offset = r.offset;
          user = r.user;
          state = record s { wait_flag = woken; device_buffer = r.buffer };
        })
  ]
