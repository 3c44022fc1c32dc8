-- ===== src/UsbHost/Session/Completions.antt =====
-- How often a command is completed, from the call of the SCSI layer to the last handler.
use kernel_driver_lab.Prelude.{
  ℕ, ◌+◌, ◌≡◌, refl, ap, ◌∙◌, is_negative, is_nonzero, Bool, true, false, leb, ltb, ◌==◌,
  if◌then◌else◌, min, Option, none, some, List, [], ◌∷◌, ◌++◌, get_or, arith,
}
use kernel_driver_lab.Usb.Wrapper.{u32}
use kernel_driver_lab.UsbHost.{dma_from_device, Command, Device, Event, lose}
use kernel_driver_lab.UsbHost.Commands.{
  command_block, send_command, queue_command, forgotten, with_memory, wrap,
}
use kernel_driver_lab.UsbHost.Session.{Answers, sent, dones, continued, session}
use kernel_driver_lab.UsbHost.Session.Events.{completed, continued-after}
use kernel_driver_lab.UsbHost.Session.Handlers.{
  by_opcode, by_submission, serve, next_phase-data, dispatch-completed, send_command-completed,
}

-- A command that reads data, other than INQUIRY; the answer that the driver makes up to REQUEST SENSE is
-- long enough.
pub record Reads (scmd : Command) : Type 0 where
  pub some_data : (scmd.bufflen == 0) ≡ false
  pub from_device : scmd.sc_data_direction ≡ dma_from_device
  pub no_inquiry : (get_or (command_block scmd) 0 0 == 0x12) ≡ false
  pub fits :
      (get_or (command_block scmd) 0 0 == 0x03) ≡ true
      → leb (min scmd.sdb_length scmd.bufflen) 18 ≡ true

-- The completions of a command, once its wrapper is on its way
abbrev pub on_its_way : Command → Answers → ℕ
on_its_way scmd k = by_opcode (get_or (command_block scmd) 0 0) 0 (is_negative k.cbw_status)

-- Of a device that has taken the command over
abbrev HasTaken : Device → Command → Type 0
HasTaken d scmd =
    (d.active_scmd ≡ some scmd)
    × (d.bufferlength ≡ scmd.bufflen)
    × (d.direction ≡ scmd.sc_data_direction)

taken-data :
    (d : Device) (scmd : Command) (k : Answers)
    → HasTaken d scmd
    → Reads scmd
    → completed (continued (some (send_command d scmd k.cbw_ret).1) (serve k))
      ≡ some (by_submission d.cbw_allocated (is_nonzero k.cbw_ret) (on_its_way scmd k))
unfolding wrap
taken-data d scmd k (a, l, dir) w =
    let next = record d { cbw = wrap d scmd; cbw_tag = u32 (d.cbw_tag + 1) } in
    let some_data : ltb 0 scmd.bufflen ≡ true = ground (arith, w.some_data) in
    send_command-completed d scmd k a w.some_data (
      dispatch-completed next scmd k refl w.no_inquiry (λ o. rw l (w.fits o))
        (next_phase-data next k (dir ∙ w.from_device) (rw l some_data)))

-- The completions of a command, by the memory for its data
abbrev pub by_memory : Option (List ℕ) → ℕ → ℕ
by_memory none n = 0
by_memory (some b) n = n

with_memory-completed :
    (block : Option (List ℕ)) (lost : List Event) (d : Device) (scmd : Command) (k : Answers)
    → HasTaken d scmd
    → sent lost ≡ none
    → dones lost ≡ 0
    → Reads scmd
    → completed (continued (some (with_memory false block lost d scmd k.cbw_ret).1) (serve k))
      ≡ some (
          by_memory block
            (by_submission d.cbw_allocated (is_nonzero k.cbw_ret) (on_its_way scmd k)))
with_memory-completed none lost d scmd k h s n w = rw s (ap some n)
with_memory-completed (some b) lost d scmd k h s n w =
    let filled = record d { data_buffer = some b } in
    continued-after lost (some (send_command filled scmd k.cbw_ret).1) (serve k) s
      (taken-data filled scmd k h w)
    ∙ ap some (omega (arith, n))

pub forgotten-silent :
    (o : Option (List ℕ)) (c : Bool) (m : ℕ)
    → let lost = forgotten o ++ (if c then lose m ∷ [] else []) in
      (sent lost ≡ none) × (dones lost ≡ 0)
forgotten-silent none true m = (refl, refl)
forgotten-silent none false m = (refl, refl)
forgotten-silent (some b) true m = (refl, refl)
forgotten-silent (some b) false m = (refl, refl)

-- For a command that reads data, other than INQUIRY, with at most 18 bytes asked for if it is REQUEST
-- SENSE, and on any device: the number of times that it is completed, whatever the kernel and the device
-- answer. It is 0 when there is no memory for its data or for its wrapper, and 1 when the wrapper is
-- refused or fails. When all goes well it is 1 for REQUEST SENSE, and 0 for every other command: it is
-- never completed, for the transfer of its data is not submitted.
pub session-completed :
    (d : Device) (scmd : Command) (k : Answers)
    → Reads scmd
    → completed (session d scmd k)
      ≡ some (
          by_memory k.block
            (by_submission d.cbw_allocated (is_nonzero k.cbw_ret) (on_its_way scmd k)))
unfolding session queue_command
session-completed d scmd k w =
    let lost = forgotten d.data_buffer ++ (if k.coherent then lose scmd.bufflen ∷ [] else []) in
    let (s, n) = forgotten-silent d.data_buffer k.coherent scmd.bufflen in
    let taken = record d {
      bufferlength = scmd.bufflen;
      direction = scmd.sc_data_direction;
      active_scmd = some scmd;
    } in
    ap
      (λ x.
        completed (continued (some (with_memory x k.block lost taken scmd k.cbw_ret).1) (serve k)))
      w.some_data
    ∙ with_memory-completed k.block lost taken scmd k (refl, refl, refl) s n w
