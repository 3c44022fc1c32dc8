-- ===== src/Usb/Handlers/Phases.antt =====
-- Which transfer follows which command: the phases of a command, and the room in the buffers.
use kernel_driver_lab.Usb.Clear.Lifecycle.{granted_events}
use kernel_driver_lab.Usb.Probe.{Plugged}
use kernel_driver_lab.Usb.Probe.Paths.{probed}
use kernel_driver_lab.Prelude.{
  ℕ, zero, suc, ◌-◌, ℤ, pos, is_nonzero, Bool, true, Option, none, some, List, [], ◌∷◌, ◌++◌, ◌≡◌,
  refl, ap, ◌∙◌, arith, not, ◌==◌, if◌then◌else◌,
}
use kernel_driver_lab.Ledger.{replay, nothing}
use kernel_driver_lab.Usb.Wrapper.{
  Cbw, cbw_tag, inquiry, test_unit_ready, request_sense, read_capacity_10, read_10, write_10,
  bytes_of, wrapper_at, le32_at,
}
use kernel_driver_lab.Usb.Device.{
  for_read, for_inquiry, Memory, mismatched, room, memory_tagged, Device,
}
use kernel_driver_lab.Usb.Handlers.{
  to_device, to_host, cbw_callback_fn, data_callback_fn, csw_callback_fn, Transfer, Handled,
  Verdict, bad_signature, bad_tag, good, cbw_callback, data_callback, csw_callback,
}

-- The commands that the macros build.
pub data Command : Type 0 where
  ready capacity : Command
  sense identify : ℕ → Command
  read write : ℕ → ℕ → ℕ → Command

abbrev pub wrapper : Command → Cbw
wrapper ready = test_unit_ready
wrapper (sense n) = request_sense n
wrapper capacity = read_capacity_10
wrapper (identify n) = inquiry n
wrapper (read lba n size) = read_10 lba n size
wrapper (write lba n size) = write_10 lba n size

-- The transfer that the command calls for next, after its data direction in the SCSI standard: its data
-- phase, or the status if it has none. The sizes are those that the driver fixes.
abbrev pub data_phase : Command → Device → Transfer
data_phase ready d = record {
  direction = to_host;
  endpoint = d.bulk_in_endpointaddr;
  buffer = d.csw_buffer;
  size = 13;
  handler = csw_callback_fn;
}
data_phase (sense n) d = record {
  direction = to_host;
  endpoint = d.bulk_in_endpointaddr;
  buffer = d.inquiry_buffer;
  size = 18;
  handler = data_callback_fn;
}
data_phase capacity d = record {
  direction = to_host;
  endpoint = d.bulk_in_endpointaddr;
  buffer = d.read_buf;
  size = 8;
  handler = data_callback_fn;
}
data_phase (identify n) d = record {
  direction = to_host;
  endpoint = d.bulk_in_endpointaddr;
  buffer = d.inquiry_buffer;
  size = 36;
  handler = data_callback_fn;
}
data_phase (read lba n size) d = record {
  direction = to_host;
  endpoint = d.bulk_in_endpointaddr;
  buffer = d.read_buf;
  size = 512;
  handler = data_callback_fn;
}
data_phase (write lba n size) d = record {
  direction = to_device;
  endpoint = d.bulk_out_endpointaddr;
  buffer = d.write_buffer;
  size = 15;
  handler = data_callback_fn;
}

-- For each of the six kinds of command and all arguments of its macro, once its wrapper has been sent
-- and if the kernel accepts the next submission: the handler recognises the command, keeps the tag,
-- frees nothing and submits one transfer. It is the status from the device for TEST UNIT READY, 18 bytes
-- from the device for REQUEST SENSE, 8 for READ CAPACITY, 36 for INQUIRY and 512 for READ (10), and 15
-- bytes to the device for WRITE (10), each on the bulk endpoint of its direction with the buffer that was
-- allocated for it, whatever length the command itself asks for.
pub command_phase :
    (c : Command) (d : Device)
    → cbw_callback d (pos 0) (bytes_of (wrapper c)) (pos 0)
      ≡ record { dev = record d { cbw_tag = cbw_tag }; sent = some (data_phase c d); freed = [] }
unfolding cbw_callback bytes_of wrapper_at test_unit_ready request_sense inquiry read_capacity_10
    read_10 write_10
command_phase ready d = refl
command_phase (sense n) d = refl
command_phase capacity d = refl
command_phase (identify n) d = refl
command_phase (read lba n size) d = refl
command_phase (write lba n size) d = refl

-- The bytes by which a transfer runs past the end of its buffer.
abbrev pub past_end : Option Transfer → ℕ
past_end none = 0
past_end (some t) = elim t.buffer [ none ↦ t.size | some m ↦ t.size - room m ]

abbrev pub overrun : Command → ℕ
overrun ready = 0
overrun (sense n) = 0
overrun capacity = 0
overrun (identify n) = 18
overrun (read lba n size) = 504
overrun (write lba n size) = 2

-- On a probed device the data phases of TEST UNIT READY, REQUEST SENSE and READ CAPACITY stay within
-- the memory that was allocated for them; that of INQUIRY runs 18 bytes past its end, that of
-- READ (10) 504 bytes and that of WRITE (10) 2 bytes, whatever blocks are asked for.
pub command_overrun :
    (c : Command) (p : Plugged)
    → past_end (cbw_callback (probed p) (pos 0) (bytes_of (wrapper c)) (pos 0)).sent ≡ overrun c
command_overrun c p = rw (command_phase c (probed p)) (overrun_of c p)
  where
    overrun_of : (c : Command) (p : Plugged) → past_end (some (data_phase c (probed p))) ≡ overrun c
    overrun_of ready p = refl
    overrun_of (sense n) p = refl
    overrun_of capacity p = refl
    overrun_of (identify n) p = refl
    overrun_of (read lba n size) p = refl
    overrun_of (write lba n size) p = refl

-- What a handler wrongly gives back when the kernel refuses its submission.
abbrev pub wrongly_freed : Command → List Memory
wrongly_freed ready = []
wrongly_freed (sense n) = mismatched for_inquiry ∷ []
wrongly_freed capacity = mismatched for_read ∷ []
wrongly_freed (identify n) = mismatched for_inquiry ∷ []
wrongly_freed (read lba n size) = mismatched for_read ∷ []
wrongly_freed (write lba n size) = []

-- When the kernel refuses the submission of a command's data phase on a device with all of its
-- memory, nothing is sent, and the clean-up hands coherent memory to `kfree` for INQUIRY, REQUEST
-- SENSE, READ CAPACITY and READ (10); for the other two commands it gives back only what is held.
pub command_refused :
    (c : Command) (p : Plugged) (lost : Bool) (ret : ℤ)
    → is_nonzero ret ≡ true
    → let h = cbw_callback (probed p) (pos 0) (bytes_of (wrapper c)) ret in
      (h.sent ≡ none)
      × ((replay (nothing Memory) (granted_events lost ++ h.freed)).faults ≡ wrongly_freed c)
unfolding cbw_callback bytes_of wrapper_at test_unit_ready request_sense inquiry read_capacity_10
    read_10 write_10
command_refused ready p lost ret e = rw e (ground arith)
command_refused (sense n) p lost ret e = rw e (ground arith)
command_refused capacity p lost ret e = rw e (ground arith)
command_refused (identify n) p lost ret e = rw e (ground arith)
command_refused (read lba n size) p lost ret e = rw e (ground arith)
command_refused (write lba n size) p lost ret e = rw e (ground arith)

-- A transfer that completes without error calls its handler, which may submit another; every
-- submission is accepted. `cbw` is what `cbw_buffer` holds, and `csw` what the device sends as status.
abbrev pub completed : Device → Transfer → (cbw csw : List ℕ) → Handled × Option Verdict
completed d t cbw csw = elim t.handler [
  | cbw_callback_fn ↦ (cbw_callback d (pos 0) cbw (pos 0), none)
  | data_callback_fn ↦ (data_callback d (pos 0) (pos 0), none)
  | csw_callback_fn ↦
      (record { dev = d; sent = none; freed = [] }, some (csw_callback d (pos 0) csw))
]

-- The transfers of a session, in order, and what the last handler finds; no verdict is found when the
-- session is not over within the rounds given.
pub session : ℕ → Device → Option Transfer → (cbw csw : List ℕ) → List Transfer × Option Verdict
session rounds d none cbw csw = ([], none)
session zero d (some t) cbw csw = (t ∷ [], none)
session (suc rounds) d (some t) cbw csw =
    let (h, verdict) = completed d t cbw csw in
    let (later, found) = session rounds h.dev h.sent cbw csw in
    (t ∷ later, elim verdict [ none ↦ found | some v ↦ some v ])

-- What the status says, by its signature and its tag
abbrev pub status_verdict : List ℕ → Verdict
status_verdict csw =
    if not (le32_at csw 0 == 0x43425355)
    then bad_signature
    else if not (le32_at csw 4 == cbw_tag)
    then bad_tag
    else good

-- What follows the command's wrapper: its data, if it has any, and the status.
abbrev pub rest_of_session : Command → Device → List Transfer
rest_of_session ready d = data_phase ready d ∷ []
rest_of_session c d = data_phase c d ∷ data_phase ready d ∷ []

first_completed :
    (c : Command) (d : Device) (t : Transfer) (csw : List ℕ)
    → t.handler ≡ cbw_callback_fn
    → completed d t (bytes_of (wrapper c)) csw ≡ (
      record { dev = record d { cbw_tag = cbw_tag }; sent = some (data_phase c d); freed = [] },
      none,
    )
first_completed c d t csw e = rw e (ap (λ h. (h, none)) (command_phase c d))

-- What one transfer and the later ones come to
abbrev gathered :
    Transfer → List ℕ → List ℕ → Handled × Option Verdict → List Transfer × Option Verdict
gathered t cbw csw (h, verdict) =
    let (later, found) = session 2 h.dev h.sent cbw csw in
    (t ∷ later, elim verdict [ none ↦ found | some v ↦ some v ])

later_lem :
    (c : Command) (d : Device) (t : Transfer) (cbw csw : List ℕ)
    → gathered t cbw csw (
      record { dev = record d { cbw_tag = cbw_tag }; sent = some (data_phase c d); freed = [] },
      none,
    )
      ≡ (t ∷ rest_of_session c (record d { cbw_tag = cbw_tag }), some (status_verdict csw))
unfolding session data_callback csw_callback
later_lem ready d t cbw csw = refl
later_lem (sense n) d t cbw csw = refl
later_lem capacity d t cbw csw = refl
later_lem (identify n) d t cbw csw = refl
later_lem (read lba n size) d t cbw csw = refl
later_lem (write lba n size) d t cbw csw = refl

-- Where every transfer completes and every submission is accepted, a command of one of the six kinds
-- whose wrapper has been submitted is over after at most three transfers, in order: the wrapper, 18, 8,
-- 36 or 512 bytes from the device or 15 bytes to it, which TEST UNIT READY leaves out and READ (10) and
-- WRITE (10) have for any number of blocks, even none, and the status. The last handler then finds the
-- status good exactly if it begins with the signature of a command wrapper, and not of a status wrapper,
-- and carries the tag of the command.
pub session_lem :
    (c : Command) (d : Device) (t : Transfer) (csw : List ℕ)
    → t.handler ≡ cbw_callback_fn
    → session 3 d (some t) (bytes_of (wrapper c)) csw
      ≡ (t ∷ rest_of_session c (record d { cbw_tag = cbw_tag }), some (status_verdict csw))
unfolding session
session_lem c d t csw e =
    ap (gathered t (bytes_of (wrapper c)) csw) (first_completed c d t csw e)
    ∙ later_lem c d t (bytes_of (wrapper c)) csw
