-- ===== src/TempWatch/Threshold.antt =====
-- The threshold and the mutex that guards it.
use kernel_driver_lab.Prelude.{
  ℕ, ◌<◌, ◌≡◌, refl, ◌∙◌, ℤ, pos, is_negative, true, false, none, some, List, [], ◌∷◌, arith, ◌⊎◌,
  inl, inr, replicate, set,
}
use kernel_driver_lab.TempWatch.{
  State, Kernel, thread_round, threshold_write, wait_read, value_read, my_write, my_read,
}
use kernel_driver_lab.TempWatch.Alarm.{
  Call, round, set_threshold, wait_alarm, see_value, write_device, read_device, after,
}

-- A write that does not sleep releases the mutex exactly when it succeeds: it leaves the mutex held
-- exactly when its result is an error; then the threshold is what it was, and after a success the
-- result is the length, which is below 32, and the threshold is the number that was parsed.
pub threshold_write_lem :
    (k : Kernel) (s s' : State) (buf : List ℕ) (len : ℕ) (result : ℤ)
    → threshold_write k s buf len ≡ some (result, s')
    → (s.mutex_held ≡ false)
      × (s'.mutex_held ≡ is_negative result)
      × (((is_negative result ≡ true) × (s'.threshold_value ≡ s.threshold_value))
          ⊎ ((result ≡ pos len)
              × (len < 32)
              × (k.kstrtoint (set (k.uaccess.copy_from_user (replicate 32 0) buf len).1 len 0)
                  ≡ some s'.threshold_value)))
unfolding threshold_write
threshold_write_lem k s s' buf len result h = (ground arith, ground arith, ground arith)

-- The state after calls, in order
abbrev pub after_all : Kernel → List Call → State → State
after_all k [] s = s
after_all k (c ∷ cs) s = after_all k cs (after k c s)

after-held :
    (k : Kernel) (c : Call) (s : State) → s.mutex_held ≡ true → (after k c s).mutex_held ≡ true
unfolding after thread_round threshold_write wait_read value_read my_write my_read
after-held k (round random) s h = ground arith
after-held k (set_threshold buf len) s h = ground arith
after-held k (wait_alarm signal buf offset) s h = ground arith
after-held k (see_value buf offset) s h = ground arith
after-held k (write_device buf len) s h = ground arith
after-held k (read_device buf len offset) s h = ground arith

after_all-held :
    (k : Kernel) (cs : List Call) (s : State)
    → s.mutex_held ≡ true
    → (after_all k cs s).mutex_held ≡ true
after_all-held k [] s h = h
after_all-held k (c ∷ cs) s h = after_all-held k cs (after k c s) (after-held k c s h)

after-threshold :
    (k : Kernel) (c : Call) (s : State)
    → s.mutex_held ≡ true
    → (after k c s).threshold_value ≡ s.threshold_value
unfolding after thread_round threshold_write wait_read value_read my_write my_read
after-threshold k (round random) s h = ground arith
after-threshold k (set_threshold buf len) s h = ground arith
after-threshold k (wait_alarm signal buf offset) s h = ground arith
after-threshold k (see_value buf offset) s h = ground arith
after-threshold k (write_device buf len) s h = ground arith
after-threshold k (read_device buf len offset) s h = ground arith

after_all-threshold :
    (k : Kernel) (cs : List Call) (s : State)
    → s.mutex_held ≡ true
    → (after_all k cs s).threshold_value ≡ s.threshold_value
after_all-threshold k [] s h = refl
after_all-threshold k (c ∷ cs) s h =
    after_all-threshold k cs (after k c s) (after-held k c s h) ∙ after-threshold k c s h

asleep :
    (k : Kernel) (s : State) (buf : List ℕ) (len : ℕ)
    → s.mutex_held ≡ true
    → threshold_write k s buf len ≡ none
unfolding threshold_write
asleep k s buf len h = ground arith

-- After one write of the threshold that fails, for its length, its memory or its text, and then any
-- number of rounds of the thread and of reads and writes of all files, in any order: the threshold is
-- still what it was before, and no write of it returns, but sleeps on the mutex, whatever it brings.
pub threshold_stuck :
    (k : Kernel) (s s' : State) (buf again : List ℕ) (len len_again : ℕ) (result : ℤ)
    (cs : List Call)
    → threshold_write k s buf len ≡ some (result, s')
    → is_negative result ≡ true
    → ((after_all k cs s').threshold_value ≡ s.threshold_value)
      × (threshold_write k (after_all k cs s') again len_again ≡ none)
threshold_stuck k s s' buf again len len_again result cs h e =
    let (free, held, outcome) = threshold_write_lem k s s' buf len result h in
    let stuck : s'.mutex_held ≡ true = held ∙ e in
    (
      after_all-threshold k cs s' stuck ∙ kept outcome e,
      asleep k (after_all k cs s') again len_again (after_all-held k cs s' stuck),
    )
  where
    kept :
        ((is_negative result ≡ true) × (s'.threshold_value ≡ s.threshold_value))
          ⊎ ((result ≡ pos len)
              × (len < 32)
              × (k.kstrtoint (set (k.uaccess.copy_from_user (replicate 32 0) buf len).1 len 0)
                  ≡ some s'.threshold_value))
        → is_negative result ≡ true
        → s'.threshold_value ≡ s.threshold_value
    kept (inl x) e = x.1
    kept (inr x) e = absurd (ground (arith, x.0))
