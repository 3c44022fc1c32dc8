-- ===== src/Usb/Tests.antt =====
-- The theorems on the USB driver at concrete inputs: the stick of usb_info.txt, with a bulk-in
-- endpoint at 0x81 and a bulk-out endpoint at 0x02.
use kernel_driver_lab.Prelude.{
  ◌≡◌, refl, replicate, pos, einval, true, false, some, [], ◌∷◌, ◌++◌, arith,
}
use kernel_driver_lab.Ledger.{Run, replay, nothing}
use kernel_driver_lab.Usb.Wrapper.{cbw_tag, cbw_len, inquiry, read_10, write_10, bytes_of}
use kernel_driver_lab.Usb.Wrapper.Scsi.{
  logical_block_address, transfer_length, block_command_misread,
}
use kernel_driver_lab.Usb.Device.{
  for_cbw, for_csw, for_inquiry, Memory, coherent, heap, request, memory_tagged, blank,
}
use kernel_driver_lab.Usb.Alloc.{Replies, usb_alloc_buffer_and_urb}
use kernel_driver_lab.Usb.Alloc.Paths.{alloc_paths}
use kernel_driver_lab.Usb.Clear.{usb_clear_buffer_and_urb, usb_disconnect}
use kernel_driver_lab.Usb.Clear.Lifecycle.{clear-alloc}
use kernel_driver_lab.Usb.Probe.{Plugged, usb_probe}
use kernel_driver_lab.Usb.Probe.Paths.{probed, probe-disconnect}
use kernel_driver_lab.Usb.Handlers.{
  Handled, Transfer, Verdict, good, bad_signature, init_usb_protocols, cbw_callback, csw_callback,
}
use kernel_driver_lab.Usb.Handlers.Phases.{
  identify, read, wrapper, past_end, command_overrun, data_phase, rest_of_session, session,
  command_phase, session_lem,
}

abbrev all_yes : Replies
all_yes = record {
  cbw_buffer = true;
  cbw_urb = true;
  csw_buffer = true;
  csw_urb = true;
  read_buf = true;
  read_urb = true;
  inquiry_kmalloc = true;
  inquiry_buffer = true;
  inquiry_urb = true;
  write_buffer = true;
  write_urb = true;
}

-- The request block for reading is refused.
abbrev no_read_urb : Replies
no_read_urb = record all_yes { read_urb = false }

abbrev stick : Plugged
stick = record {
  kzalloc = true;
  has_altsetting = true;
  replies = all_yes;
  endpoints =
      record { is_bulk_in = true; is_bulk_out = false; address = 0x81 }
      ∷ record { is_bulk_in = false; is_bulk_out = true; address = 0x02 }
      ∷ [];
}

alloc_paths_example :
    let (result, events) = usb_alloc_buffer_and_urb no_read_urb blank in
    (result.0 ≡ einval)
    × (replay (nothing Memory) events ≡ record {
      held = request for_csw ∷ heap for_csw ∷ request for_cbw ∷ coherent for_cbw ∷ [];
      faults = [];
    })
alloc_paths_example = alloc_paths no_read_urb

clear-alloc_example :
    let (done, taken) = usb_alloc_buffer_and_urb all_yes blank in
    let (cleared, given) = usb_clear_buffer_and_urb done.1 in
    (cleared.0 ≡ pos 0)
    × (cleared.1 ≡ record blank {
      inquiry_urb = some (request for_inquiry);
      inquiry_buffer = some (coherent for_inquiry);
    })
    × (replay (nothing Memory) (taken ++ given)
        ≡ record { held = coherent for_inquiry ∷ heap for_inquiry ∷ []; faults = [] })
clear-alloc_example = clear-alloc all_yes refl

probe-disconnect_example :
    (run : Run Memory (Unit {0})) × (usb_disconnect (usb_probe stick).0.intfdata ≡ some run)
    × (replay (nothing Memory) ((usb_probe stick).1 ++ run.1)
        ≡ record { held = coherent for_inquiry ∷ heap for_inquiry ∷ []; faults = [] })
probe-disconnect_example = probe-disconnect stick refl refl refl

-- The device is asked for block 0x34567801 and for no block.
block_command_misread_example :
    (logical_block_address (read_10 0x12345678 0x102 512) ≡ 0x34567801)
    × (logical_block_address (write_10 0x12345678 0x102 512) ≡ 0x34567801)
    × (transfer_length (read_10 0x12345678 0x102 512) ≡ 0)
    × (transfer_length (write_10 0x12345678 0x102 512) ≡ 0)
block_command_misread_example = block_command_misread 0x12345678 0x102 512 (omega arith)

command_phase_example :
    cbw_callback (probed stick) (pos 0) (bytes_of (inquiry 36)) (pos 0) ≡ record {
      dev = record (probed stick) { cbw_tag = cbw_tag };
      sent = some (data_phase (identify 36) (probed stick));
      freed = [];
    }
command_phase_example = command_phase (identify 36) (probed stick)

-- READ (10) of one block
command_overrun_example :
    past_end (cbw_callback (probed stick) (pos 0) (bytes_of (wrapper (read 0 1 512))) (pos 0)).sent
    ≡ 504
command_overrun_example = command_overrun (read 0 1 512) stick

-- The transfer that `init_usb_protocols` submits.
abbrev first_transfer : Transfer
first_transfer = record {
  direction = kernel_driver_lab.Usb.Handlers.to_device;
  endpoint = 0x02;
  buffer = some (coherent for_cbw);
  size = cbw_len;
  handler = kernel_driver_lab.Usb.Handlers.cbw_callback_fn;
}

first_transfer_sent : init_usb_protocols (probed stick) (pos 0) ≡ (
  bytes_of (inquiry 36),
  record {
    dev = record (probed stick) { my_cbw = inquiry 36 };
    sent = some first_transfer;
    freed = [];
  },
)
unfolding init_usb_protocols
first_transfer_sent = refl

session_lem_example :
    session 3 (probed stick) (some first_transfer) (bytes_of (inquiry 36)) (replicate 13 0) ≡ (
      first_transfer ∷ rest_of_session (identify 36) (record (probed stick) { cbw_tag = cbw_tag }),
      some bad_signature,
    )
session_lem_example = session_lem (identify 36) (probed stick) first_transfer (replicate 13 0) refl
