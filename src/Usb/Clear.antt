-- ===== src/Usb/Clear.antt =====
-- `usb_clear_buffer_and_urb` and `usb_disconnect` of k_usb_module-26/usb.c.
pub mod Lifecycle
use kernel_driver_lab.Prelude.{
  ℤ, pos, einval, is_nonzero, Bool, ◌||◌, if◌then◌else◌, Option, none, some, List, [], ◌∷◌, ◌++◌,
}
use kernel_driver_lab.Ledger.{Run, ◌▷◌, ◌>>=◌, pure, release}
use kernel_driver_lab.Usb.Device.{
  for_device, Memory, heap, reference, is_set, Device, usb_free_coherent, kfree, usb_free_urb,
}

clear_cbw : Device → Run Memory Device
clear_cbw d =
    if is_set d.cbw_urb || is_set d.cbw_buffer
    then (
      record d { cbw_urb = none; cbw_buffer = none },
      usb_free_urb d.cbw_urb ++ usb_free_coherent d.cbw_buffer,
    )
    else pure d

clear_csw : Device → Run Memory Device
clear_csw d =
    if is_set d.csw_urb || is_set d.csw_buffer
    then (
      record d { csw_urb = none; csw_buffer = none },
      usb_free_urb d.csw_urb ++ kfree d.csw_buffer,
    )
    else pure d

-- The source frees the request block of the inquiry and clears `csw_urb`, then frees and clears
-- `csw_buffer`.
clear_inquiry : Device → Run Memory Device
clear_inquiry d =
    if is_set d.inquiry_urb || is_set d.inquiry_buffer
    then (
      record d { csw_urb = if is_set d.inquiry_urb then none else d.csw_urb; csw_buffer = none },
      usb_free_urb d.inquiry_urb ++ kfree d.csw_buffer,
    )
    else pure d

clear_read : Device → Run Memory Device
clear_read d =
    if is_set d.read_urb || is_set d.read_buf
    then (
      record d { read_urb = none; read_buf = none },
      usb_free_urb d.read_urb ++ usb_free_coherent d.read_buf,
    )
    else pure d

clear_write : Device → Run Memory Device
clear_write d =
    if is_set d.write_urb || is_set d.write_buffer
    then (
      record d { write_urb = none; write_buffer = none },
      usb_free_urb d.write_urb ++ kfree d.write_buffer,
    )
    else pure d

-- Both callers pass a device, so the branch for NULL, which returns -EINVAL, is not reached.
unfoldable pub usb_clear_buffer_and_urb : Device → Run Memory (ℤ × Device)
unfolding clear_cbw clear_csw clear_inquiry clear_read clear_write
usb_clear_buffer_and_urb dev = do
  d1 ← clear_cbw dev
  d2 ← clear_csw d1
  d3 ← clear_inquiry d2
  d4 ← clear_read d3
  d5 ← clear_write d4
  pure (pos 0, d5)

-- `usb_disconnect` of a device. The halts of the endpoints, which are cleared between, hold no
-- memory.
unfoldable pub disconnect_device : Device → Run Memory (Unit {0})
unfolding usb_clear_buffer_and_urb
disconnect_device dev = do
  cleared ← usb_clear_buffer_and_urb (record dev { cbw_tag = 0 })
  if is_nonzero cleared.0
      then pure tt
      else release reference ▷ (release (heap for_device) ▷ pure tt)

-- `usb_disconnect` on what `usb_get_intfdata` returns; `none` is the read of `dev->udev` through
-- NULL, which follows the block under `if (dev)`.
unfoldable pub usb_disconnect : Option Device → Option (Run Memory (Unit {0}))
unfolding disconnect_device
usb_disconnect none = none
usb_disconnect (some dev) = some (disconnect_device dev)
