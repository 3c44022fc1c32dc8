-- ===== src/Usb/Probe.antt =====
-- `usb_probe` of k_usb_module-26/usb.c.
pub mod Paths
use kernel_driver_lab.Prelude.{
  ℤ, ℕ, pos, einval, enomem, enodev, is_nonzero, Bool, true, false, not, ◌||◌, ◌&&◌, ◌==◌,
  if◌then◌else◌, Option, none, some, List, [], ◌∷◌, ◌++◌,
}
use kernel_driver_lab.Ledger.{Run, ◌▷◌, ◌>>=◌, pure, obtain, deny}
use kernel_driver_lab.Usb.Device.{for_device, Memory, heap, reference, Device, blank}
use kernel_driver_lab.Usb.Alloc.{Replies, usb_alloc_buffer_and_urb}

-- An endpoint descriptor, with the kernel's answers to `usb_endpoint_is_bulk_in` and `_out`.
pub record Endpoint : Type 0 where
  pub is_bulk_in : Bool
  pub is_bulk_out : Bool
  pub address : ℕ  -- bEndpointAddress

-- What `usb_probe` is given by the interface and by the kernel.
pub record Plugged : Type 0 where
  pub kzalloc : Bool
  pub has_altsetting : Bool
  pub replies : Replies
  pub endpoints : List Endpoint

-- The result, the interface's data, and whether the work is scheduled.
pub record Probed : Type 0 where
  pub result : ℤ
  pub intfdata : Option Device
  pub scheduled : Bool

-- The loop over the endpoints: of several of one kind the last one stays.
pub scan_endpoints : List Endpoint → Device → Device
scan_endpoints [] d = d
scan_endpoints (e ∷ es) d = scan_endpoints es (record d {
  bulk_in_endpointaddr = if e.is_bulk_in then e.address else d.bulk_in_endpointaddr;
  bulk_out_endpointaddr = if e.is_bulk_out then e.address else d.bulk_out_endpointaddr;
})

-- From the check of the endpoints on.
finish_probe : Device → Probed
finish_probe d =
    if d.bulk_in_endpointaddr == 0 && d.bulk_out_endpointaddr == 0
    then record { result = enodev; intfdata = some d; scheduled = false }
    else record { result = pos 0; intfdata = some d; scheduled = true }

pub usb_probe : Plugged → Run Memory Probed
unfolding finish_probe
usb_probe p =
    if not p.kzalloc
    then deny (heap for_device)
      ▷ pure (record { result = enomem; intfdata = none; scheduled = false })
    else obtain (heap for_device)
      ▷ (obtain reference
          ▷ (if not p.has_altsetting
              then pure (record { result = einval; intfdata = some blank; scheduled = false })
              else do
                allocated ← usb_alloc_buffer_and_urb p.replies blank
                if is_nonzero allocated.0
                    then pure
                        (record { result = einval; intfdata = some allocated.1; scheduled = false })
                    else pure (finish_probe (scan_endpoints p.endpoints allocated.1))))
