-- ===== src/UsbHost/Session.antt =====
-- A command from the SCSI layer to its end: what the bus answers, and which handler comes next.
pub mod Events
pub mod Handlers
pub mod Completions
pub mod Crash
use kernel_driver_lab.Prelude.{ℕ, suc, ℤ, Bool, Option, none, some, List, [], ◌∷◌}
use kernel_driver_lab.UsbHost.{
  Command, Device, Urb, cbw_urb, sec_urb, data_urb, csw_urb, Event, scsi_done, usb_submit_urb,
}
use kernel_driver_lab.UsbHost.Commands.{
  Outcome, after_events, queue_command, csw_callback, data_callback, cbw_callback,
}

-- What the kernel and the device answer while one command is served.
pub record Answers : Type 0 where
  pub coherent : Bool  -- usb_alloc_coherent
  pub block : Option (List ℕ)  -- kmalloc
  pub cbw_ret : ℤ  -- usb_submit_urb, and the status of the transfer
  pub cbw_status : ℤ
  pub next_ret : ℤ
  pub data_status : ℤ
  pub data_length : ℕ
  pub csw_status : ℤ
  pub csw_bytes : List ℕ

-- The request block that a call has submitted
abbrev pub sent : List Event → Option Urb
sent [] = none
sent (usb_submit_urb u ∷ es) = some u
sent (_ ∷ es) = sent es

-- How often `scsi_done` was called
abbrev pub dones : List Event → ℕ
dones [] = 0
dones (scsi_done r ∷ es) = suc (dones es)
dones (_ ∷ es) = dones es

-- The handler of the second transfer
abbrev pub last_phase : Device → Urb → Answers → Outcome
last_phase d data_urb k = data_callback d k.data_status k.data_length
last_phase d csw_urb k = csw_callback (record d { csw_buffer = k.csw_bytes }) k.csw_status
last_phase d _ k = some (d, [])

-- What follows when a call has submitted a request block, and what it has done before.
abbrev pub continued : Outcome → (Device → Urb → Outcome) → Outcome
continued none f = none
continued (some (d, es)) f = elim (sent es) [
  | none ↦ some (d, es)
  | some u ↦ after_events es (f d u)
]

-- A command, from `queue_command` to the last handler that the bus calls.
unfoldable pub session : Device → Command → Answers → Outcome
session d scmd k =
    continued (some (queue_command d scmd k.coherent k.block k.cbw_ret).1) (λ d1 u.
      continued (cbw_callback d1 d1.cbw k.cbw_status k.next_ret) (λ d2 v. last_phase d2 v k))
