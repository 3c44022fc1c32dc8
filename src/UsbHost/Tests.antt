-- ===== src/UsbHost/Tests.antt =====
-- The theorems on the SCSI host at concrete commands.
use kernel_driver_lab.Prelude.{
  ℕ, ◌≡◌, refl, pos, true, false, none, some, [], ◌∷◌, ◌++◌, replicate, enomem, arith,
}
use kernel_driver_lab.Usb.Wrapper.{zeroed}
use kernel_driver_lab.UsbHost.{Command, Device, dma_from_device, dma_none}
use kernel_driver_lab.UsbHost.Session.{Answers, session}
use kernel_driver_lab.UsbHost.Session.Events.{completed}
use kernel_driver_lab.UsbHost.Session.Completions.{session-completed}
use kernel_driver_lab.Ledger.{replay, nothing}
use kernel_driver_lab.UsbHost.Memory
use kernel_driver_lab.UsbHost.Memory.{
  Block, sec_buffer, csw_buffer, data_buffer, coherent_data, data_coherent, block_tagged, Plugged,
  usb_probe, usb_disconnect,
}
use kernel_driver_lab.UsbHost.Memory.Paths.{
  left, refused, between, host_probe_paths, host_disconnect_leaves,
}
use kernel_driver_lab.UsbHost.Session.Crash.{inquiry_crashes, plain_crashes}

-- As `usb_probe` leaves it
abbrev probed : Device
probed = record {
  bufferlength = 0;
  direction = dma_none;
  active_scmd = none;
  cbw_tag = 1;
  cbw = zeroed;
  count = 0;
  cbw_allocated = true;
  csw_buffer = replicate 13 0;
  csw_filled = false;
  data_buffer = none;
}

-- READ CAPACITY asks for 8 bytes.
abbrev read_capacity : Command
read_capacity = record {
  cmnd = 0x25 ∷ replicate 31 0;
  cmd_len = 10;
  sc_data_direction = dma_from_device;
  bufflen = 8;
  sdb_length = 8;
}

abbrev first_inquiry : Command
first_inquiry = record {
  cmnd = 0x12 ∷ 0 ∷ 0 ∷ 0 ∷ 36 ∷ replicate 27 0;
  cmd_len = 6;
  sc_data_direction = dma_from_device;
  bufflen = 36;
  sdb_length = 36;
}

abbrev all_well : ℕ → Answers
all_well n = record {
  coherent = true;
  block = some (replicate n 7);
  cbw_ret = pos 0;
  cbw_status = pos 0;
  next_ret = pos 0;
  data_status = pos 0;
  data_length = n;
  csw_status = pos 0;
  csw_bytes = replicate 13 0;
}

-- It is never completed, although nothing fails.
session-completed_example : completed (session probed read_capacity (all_well 8)) ≡ some 0
session-completed_example = session-completed probed read_capacity (all_well 8) (record {
  some_data = refl;
  from_device = refl;
  no_inquiry = refl;
  fits = λ o. absurd (ground (arith, o));
})

inquiry_crashes_example : session probed first_inquiry (all_well 36) ≡ none
inquiry_crashes_example =
    inquiry_crashes probed first_inquiry (all_well 36) refl refl refl
      (record { opcode = refl; accepted = refl; arrived = refl })

-- TEST UNIT READY
abbrev unit_ready : Command
unit_ready = record {
  cmnd = replicate 32 0;
  cmd_len = 6;
  sc_data_direction = dma_none;
  bufflen = 0;
  sdb_length = 0;
}

plain_crashes_example : session probed unit_ready (all_well 0) ≡ none
plain_crashes_example = plain_crashes probed unit_ready (all_well 0) refl refl refl

-- A device of which nothing is refused
abbrev granted : Plugged
granted = record {
  scsi_host_alloc = true;
  has_altsetting = true;
  endpoints = record { address = 0x81; is_bulk_in = true; is_bulk_out = false } ∷ [];
  cbw_urb = true;
  cbw_buffer = true;
  sec_urb = true;
  sec_buffer = true;
  csw_urb = true;
  csw_buffer = true;
  data_urb = true;
  scsi_add_host = true;
}

abbrev poor : Plugged
poor = record granted { csw_buffer = false }

host_probe_paths_example :
    ((usb_probe poor).0 ≡ enomem)
    × (replay (nothing Block) (usb_probe poor).1 ≡ left (some (refused csw_buffer)))
host_probe_paths_example = host_probe_paths poor

host_disconnect_leaves_example :
    replay (nothing Block) ((usb_probe granted).1 ++ (between true ++ (usb_disconnect true).1))
    ≡ record {
      held = data_buffer ∷ coherent_data ∷ sec_buffer ∷ Memory.sec_urb ∷ [];
      faults = data_coherent ∷ [];
    }
host_disconnect_leaves_example = host_disconnect_leaves granted true refl
