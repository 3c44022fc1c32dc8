-- ===== src/TempWatch/Alarm.antt =====
-- The alarm: how it is raised, who wakes whom, and how it is lost.
use kernel_driver_lab.Prelude.{
  ℕ, suc, ◌%◌, ◌≤◌, ◌<◌, ◌≡◌, ◌↔◌, refl, pos, true, none, some, List, length, arith, Bool, false,
  Bool-cases, inl, inr, ◌⊎◌,
}
use kernel_driver_lab.Chardev.Terminated.{IsTerminated, my_write-IsTerminated, my_read_lem}
use kernel_driver_lab.TempWatch.{
  State, Kernel, ProcRead, exceeds, thread_round, threshold_write, wait_read, value_read, my_write,
  my_read,
}

-- A reader that begins at offset 0 sleeps exactly while the flag is 0 and no signal comes.
pub wait_read_sleeps :
    (k : Kernel) (signal : Bool) (s : State) (buf : List ℕ)
    → 0 < length (k.line 44)
    → (wait_read k signal s buf 0 ≡ none) ↔ ((s.wait_flag ≡ 0) × (signal ≡ false))
unfolding wait_read
wait_read_sleeps k signal s buf h = (λ e. (ground arith, ground arith), λ e. ground arith)

-- A round that measures more than the threshold wakes a reader, whatever the flag was: one whose
-- memory takes the text receives all of it and returns its length, and the next reader sleeps unless a
-- signal comes.
pub alarm_delivered :
    (k : Kernel) (signal : Bool) (s : State) (random : ℕ) (buf again : List ℕ)
    → 0 < length (k.line 44)
    → exceeds (random % 100) s.threshold_value ≡ true
    → (k.uaccess.copy_to_user buf (k.line 44) (length (k.line 44))).0 ≡ 0
    → (r : ProcRead) × (wait_read k signal (thread_round random s) buf 0 ≡ some r)
      × (r.result ≡ pos (length (k.line 44)))
      × (r.user ≡ (k.uaccess.copy_to_user buf (k.line 44) (length (k.line 44))).1)
      × (wait_read k false r.state again 0 ≡ none)
unfolding wait_read thread_round
alarm_delivered k signal s random buf again h e c = (
  record {
    result = pos (length (k.line 44));
    offset = length (k.line 44);
    user = (k.uaccess.copy_to_user buf (k.line 44) (length (k.line 44))).1;
    state = record s { temperature = random % 100; wait_flag = 0 };
  },
  ground arith,
  refl,
  refl,
  ground arith,
)

-- A read of the device that hands data out replaces a pending alarm: the reader of the alarm then
-- returns the length of its text although its memory is as it was, and the alarm is gone.
pub alarm_overwritten :
    (k : Kernel) (s : State) (user buf again : List ℕ) (len offset : ℕ) {r : ProcRead} {n : ℕ}
    → 0 < length (k.line 44)
    → my_read k s user len offset ≡ some r
    → r.result ≡ pos (suc n)
    → (a : ProcRead) × (wait_read k false r.state buf 0 ≡ some a)
      × (a.result ≡ pos (length (k.line 44)))
      × (a.user ≡ buf)
      × (wait_read k false a.state again 0 ≡ none)
unfolding wait_read my_read
alarm_overwritten k s user buf again len offset {r} {n} h e q = (
  record {
    result = pos (length (k.line 44));
    offset = length (k.line 44);
    user = buf;
    state = record (r.state) { wait_flag = 0 };
  },
  ground (arith, flagged),
  refl,
  refl,
  ground arith,
)
  where
    flagged : r.state.wait_flag ≡ 1
    flagged = ground arith

-- The calls that reach the module, with what the environment brings to each.
pub data Call : Type 0 where
  round : (random : ℕ) → Call
  set_threshold : (buf : List ℕ) (len : ℕ) → Call
  wait_alarm : (signal : Bool) (buf : List ℕ) (offset : ℕ) → Call
  see_value : (buf : List ℕ) (offset : ℕ) → Call
  write_device : (buf : List ℕ) (len : ℕ) → Call
  read_device : (buf : List ℕ) (len offset : ℕ) → Call

-- The state after a call; one that sleeps leaves it as it is.
unfoldable pub after : Kernel → Call → State → State
after k (round random) s = thread_round random s
after k (set_threshold buf len) s = elim (threshold_write k s buf len) [ none ↦ s | some r ↦ r.1 ]
after k (wait_alarm signal buf offset) s = elim (wait_read k signal s buf offset) [
  | none ↦ s
  | some r ↦ r.state
]
after k (see_value buf offset) s = (value_read k s buf offset).state
after k (write_device buf len) s = (my_write k s buf len).1
after k (read_device buf len offset) s = elim (my_read k s buf len offset) [
  | none ↦ s
  | some r ↦ r.state
]

pub record IsValid (s : State) : Type 0 where
  pub warm : s.temperature < 100
  pub flag : s.wait_flag ≤ 2
  pub text : IsTerminated s.device_buffer

kept-IsValid :
    (s t : State)
    → t.temperature < 100
    → t.wait_flag ≤ 2
    → t.device_buffer ≡ s.device_buffer
    → IsValid s
    → IsValid t
kept-IsValid s t warm flag same v = record { warm = warm; flag = flag; text = rw same v.text }

-- Every call keeps this: the temperature is below 100, the flag is 0, 1 or 2, and the device's
-- buffer holds a string.
pub after-IsValid : (k : Kernel) (c : Call) (s : State) → IsValid s → IsValid (after k c s)
unfolding after thread_round threshold_write wait_read value_read my_write my_read
after-IsValid k (round random) s v = kept-IsValid s _ (ground arith) (ground arith) (ground arith) v
after-IsValid k (set_threshold buf len) s v =
    kept-IsValid s _ (ground arith) (ground arith) (ground arith) v
after-IsValid k (wait_alarm signal buf offset) s v =
    kept-IsValid s _ (ground arith) (ground arith) (ground arith) v
after-IsValid k (see_value buf offset) s v =
    kept-IsValid s _ (ground arith) (ground arith) (ground arith) v
after-IsValid k (write_device buf len) s v = record {
  warm = v.warm;
  flag = v.flag;
  text = my_write-IsTerminated k.uaccess s.device_buffer buf len v.text;
}
after-IsValid k (read_device buf len offset) s v =
    rw (my_read_lem k.uaccess s.device_buffer buf len offset v.text.ends.1, after, my_read)
      (kept-IsValid s _ (ground arith) (ground arith) (ground arith) v)

-- An alarm has a cause: where the flag is 2 after a call, it was 2 before, or the call was a round
-- that measured more than the threshold.
pub alarm_cause :
    (k : Kernel) (c : Call) (s : State)
    → (after k c s).wait_flag ≡ 2
    → (s.wait_flag ≡ 2)
      ⊎ ((random : ℕ) × (c ≡ round random) × (exceeds (random % 100) s.threshold_value ≡ true))
unfolding after thread_round threshold_write wait_read value_read my_write my_read
alarm_cause k (round random) s h = elim (Bool-cases (exceeds (random % 100) s.threshold_value)) [
  | inl e ↦ inr (random, refl, e)
  | inr e ↦ inl (ground arith)
]
alarm_cause k (set_threshold buf len) s h = inl (ground arith)
alarm_cause k (wait_alarm signal buf offset) s h = inl (ground arith)
alarm_cause k (see_value buf offset) s h = inl (ground arith)
alarm_cause k (write_device buf len) s h = inl h
alarm_cause k (read_device buf len offset) s h = inl (ground arith)
