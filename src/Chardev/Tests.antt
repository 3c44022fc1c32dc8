-- ===== src/Chardev/Tests.antt =====
-- The theorems on the character device at a short message and at one that is too long.
use kernel_driver_lab.Prelude.{ℕ, ◌≡◌, refl, pos, some, List, [], ◌∷◌, replicate, arith}
use kernel_driver_lab.Chardev.{device_buffer, my_write, my_read}
use kernel_driver_lab.Chardev.UserMemory.{whole_memory}
use kernel_driver_lab.Chardev.Terminated.{
  IsTerminated, device_buffer-IsTerminated, my_write-IsTerminated,
}
use kernel_driver_lab.Chardev.RoundTrip.{IsMessage, my_read-my_write}

-- "Hi"
abbrev message : List ℕ
message = 72 ∷ 105 ∷ []

abbrev user : List ℕ
user = replicate 4 1

message-IsMessage : IsMessage message 2
message-IsMessage = omega arith

message_written : (my_write whole_memory device_buffer message 2).0 ≡ pos 2
unfolding my_write whole_memory
message_written = refl

-- The user's memory ends before `len`: the write fails after a partial copy.
my_write-IsTerminated_example : IsTerminated (my_write whole_memory device_buffer message 5).1
my_write-IsTerminated_example =
    my_write-IsTerminated whole_memory device_buffer message 5 device_buffer-IsTerminated

message_taken :
    (whole_memory.copy_to_user user (my_write whole_memory device_buffer message 2).1 2).0 ≡ 0
unfolding whole_memory
message_taken = refl

my_read-my_write_example :
    let b = (my_write whole_memory device_buffer message 2).1 in
    (my_read whole_memory b user 1 0
      ≡ some (record { result = pos 2; offset = 2; user = 72 ∷ 105 ∷ 1 ∷ 1 ∷ []; buffer = b }))
    × (my_read whole_memory b (72 ∷ 105 ∷ 1 ∷ 1 ∷ []) 1 2
        ≡ some (record { result = pos 0; offset = 2; user = 72 ∷ 105 ∷ 1 ∷ 1 ∷ []; buffer = b }))
my_read-my_write_example =
    my_read-my_write whole_memory device_buffer message user 2 1 device_buffer-IsTerminated
      message-IsMessage message_written (omega arith) message_taken
