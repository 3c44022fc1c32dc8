-- ===== src/Usb/Handlers.antt =====
-- The scheduled work and the completion handlers of k_usb_module-26/usb.c. A handler may submit one
-- more transfer; `sent` is the transfer that the kernel accepted.
pub mod Phases
pub mod Status
use kernel_driver_lab.Prelude.{
  ℕ, ℤ, is_negative, is_nonzero, Bool, not, ◌==◌, if◌then◌else◌, Option, none, some, List, [], ◌∷◌,
  ◌++◌, get_or,
}
use kernel_driver_lab.Ledger.{Event}
use kernel_driver_lab.Usb.Wrapper.{Cbw, cbw_sig, cbw_len, inquiry, bytes_of, wrapper_at, le32_at}
use kernel_driver_lab.Usb.Device.{Memory, Pointer, Device, usb_free_coherent, kfree, usb_free_urb}

pub data Direction : Type 0 where
  to_device to_host : Direction  -- usb_sndbulkpipe, usb_rcvbulkpipe

pub data Handler : Type 0 where
  cbw_callback_fn data_callback_fn csw_callback_fn : Handler

-- The arguments of `usb_fill_bulk_urb`.
pub record Transfer : Type 0 where
  pub direction : Direction
  pub endpoint : ℕ
  pub buffer : Pointer
  pub size : ℕ
  pub handler : Handler

pub record Handled : Type 0 where
  pub dev : Device
  pub sent : Option Transfer
  pub freed : List (Event Memory)

abbrev pub read_len : ℕ
read_len = 8

abbrev pub req_len : ℕ
req_len = 18

abbrev pub csw_len : ℕ
csw_len = 13

abbrev pub quiet : Device → Handled
quiet d = record { dev = d; sent = none; freed = [] }

-- `init_usb_protocols`: the bytes of `cbw_buffer`, and the outcome; `ret` is what
-- `usb_submit_urb` returns.
unfoldable pub init_usb_protocols : Device → ℤ → List ℕ × Handled
init_usb_protocols d ret =
    let ready = record d { my_cbw = inquiry 36 } in
    let transfer : Transfer = record {
      direction = to_device;
      endpoint = d.bulk_out_endpointaddr;
      buffer = d.cbw_buffer;
      size = cbw_len;
      handler = cbw_callback_fn;
    } in
    (
      bytes_of ready.my_cbw,
      if is_nonzero ret
          then quiet ready
          else record { dev = ready; sent = some transfer; freed = [] },
    )

-- The transfer of the status wrapper, which two handlers fill.
abbrev pub csw_transfer : Device → Transfer
csw_transfer d = record {
  direction = to_host;
  endpoint = d.bulk_in_endpointaddr;
  buffer = d.csw_buffer;
  size = csw_len;
  handler = csw_callback_fn;
}

abbrev pub read_transfer : Device → ℕ → Transfer
read_transfer d n = record {
  direction = to_host;
  endpoint = d.bulk_in_endpointaddr;
  buffer = d.read_buf;
  size = n;
  handler = data_callback_fn;
}

abbrev pub inquiry_transfer : Device → ℕ → Transfer
inquiry_transfer d n = record {
  direction = to_host;
  endpoint = d.bulk_in_endpointaddr;
  buffer = d.inquiry_buffer;
  size = n;
  handler = data_callback_fn;
}

abbrev pub write_transfer : Device → Transfer
write_transfer d = record {
  direction = to_device;
  endpoint = d.bulk_out_endpointaddr;
  buffer = d.write_buffer;
  size = 15;
  handler = data_callback_fn;
}

-- `case 0x2A`
on_write : Device → ℤ → Handled
on_write d ret =
    if is_nonzero ret
    then record {
      dev = record d { write_buffer = none; write_urb = none };
      sent = none;
      freed = usb_free_urb d.write_urb ++ kfree d.write_buffer;
    }
    else record { dev = d; sent = some (write_transfer d); freed = [] }

-- `case 0x28` and `case 0x25`, with the label `r_urb`
on_read : ℕ → Device → ℤ → Handled
on_read n d ret =
    if is_nonzero ret
    then record {
      dev = record d { read_urb = none; read_buf = none };
      sent = none;
      freed = usb_free_urb d.read_urb ++ kfree d.read_buf;
    }
    else record { dev = d; sent = some (read_transfer d n); freed = [] }

-- `case 0x12` and `case 0x03`
on_inquiry : ℕ → Device → ℤ → Handled
on_inquiry n d ret =
    if is_nonzero ret
    then record {
      dev = record d { inquiry_buffer = none; inquiry_urb = none };
      sent = none;
      freed = usb_free_urb d.inquiry_urb ++ kfree d.inquiry_buffer;
    }
    else record { dev = d; sent = some (inquiry_transfer d n); freed = [] }

-- `case 0x00`, and all of `data_callback` after its test
on_status : Device → ℤ → Handled
on_status d ret =
    if is_nonzero ret then quiet d else record { dev = d; sent = some (csw_transfer d); freed = [] }

-- `switch (cbw->CBWCB[0])`
dispatch : ℕ → Device → ℤ → Handled
dispatch opcode d ret =
    if opcode == 0x2A
    then on_write d ret
    else if opcode == 0x28
    then on_read 512 d ret
    else if opcode == 0x00
    then on_status d ret
    else if opcode == 0x12
    then on_inquiry 36 d ret
    else if opcode == 0x03
    then on_inquiry req_len d ret
    else if opcode == 0x25
    then on_read read_len d ret
    else quiet d

-- `cbw_callback`: the status of the completed transfer, its bytes, and what the kernel answers to
-- the submission that may follow.
unfoldable pub cbw_callback : Device → ℤ → List ℕ → ℤ → Handled
unfolding dispatch on_write on_read on_inquiry on_status
cbw_callback d status bytes ret =
    let cbw = wrapper_at bytes in
    if is_negative status
    then quiet d
    else if not (cbw.signature == cbw_sig)
    then quiet d
    else dispatch (get_or cbw.cb 0 0) (record d { cbw_tag = cbw.tag }) ret

-- `data_callback`
unfoldable pub data_callback : Device → ℤ → ℤ → Handled
unfolding on_status
data_callback d status ret = if is_negative status then quiet d else on_status d ret

-- What `csw_callback` finds, by the message that it logs.
pub data Verdict : Type 0 where
  transfer_failed bad_signature bad_tag good : Verdict

-- `csw_callback`: the signature is compared with that of the command wrapper.
unfoldable pub csw_callback : Device → ℤ → List ℕ → Verdict
csw_callback d status bytes =
    if is_nonzero status
    then transfer_failed
    else if not (le32_at bytes 0 == cbw_sig)
    then bad_signature
    else if not (le32_at bytes 4 == d.cbw_tag)
    then bad_tag
    else good
