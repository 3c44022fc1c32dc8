-- ===== src/TempWatch/Tests.antt =====
-- The theorems on the temperature watch at concrete inputs.
use kernel_driver_lab.Prelude.{
  ◌≡◌, refl, pos, einval, true, false, some, none, List, [], ◌∷◌, replicate,
}
use kernel_driver_lab.Module.{resource_tagged}
use kernel_driver_lab.Chardev.{device_buffer}
use kernel_driver_lab.Chardev.UserMemory.{whole_memory}
use kernel_driver_lab.TempWatch.{State, Kernel, thread_round, threshold_write}
use kernel_driver_lab.TempWatch.Threshold.{after_all, threshold_stuck}
use kernel_driver_lab.TempWatch.Alarm.{Call, round, see_value, after}

-- Every text reads as 60, and every line is " 44" with its end of line.
abbrev kernel : Kernel
kernel = record {
  uaccess = whole_memory;
  kstrtoint = λ text. some (pos 60);
  line = λ n. 32 ∷ 52 ∷ 52 ∷ 10 ∷ [];
}

-- No text reads as a number.
abbrev strict : Kernel
strict = record kernel { kstrtoint = λ text. none }

abbrev initial : State
initial = record {
  threshold_value = pos 75;
  temperature = 0;
  wait_flag = 0;
  device_buffer = device_buffer;
  mutex_held = false;
}

set_sixty :
    threshold_write kernel initial (54 ∷ 48 ∷ []) 2
    ≡ some (pos 2, record initial { threshold_value = pos 60 })
unfolding threshold_write whole_memory
set_sixty = refl

no_number :
    threshold_write strict initial (54 ∷ 48 ∷ []) 2
    ≡ some (einval, record initial { mutex_held = true })
unfolding threshold_write whole_memory
no_number = refl

-- A round, and a read of the value
abbrev later_calls : List Call
later_calls = round 88 ∷ see_value (replicate 4 1) 0 ∷ []

threshold_stuck_example :
    let s = after_all strict later_calls (record initial { mutex_held = true }) in
    (s.threshold_value ≡ pos 75) × (threshold_write strict s (55 ∷ []) 1 ≡ none)
threshold_stuck_example =
    threshold_stuck strict initial (record initial { mutex_held = true }) (54 ∷ 48 ∷ []) (55 ∷ []) 2
      1 einval later_calls no_number refl

raised : (after kernel (round 188) initial).wait_flag ≡ 2
unfolding after thread_round
raised = refl
