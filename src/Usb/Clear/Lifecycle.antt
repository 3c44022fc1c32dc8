-- ===== src/Usb/Clear/Lifecycle.antt =====
-- A device from its allocation to its disconnection: what is given back, what is not.
use kernel_driver_lab.Prelude.{
  ℕ, pos, Bool, true, if◌then◌else◌, some, List, [], ◌∷◌, ◌++◌, ◌≡◌, refl, arith,
}
use kernel_driver_lab.Ledger.{Event, obtain, deny, release, replay, nothing}
use kernel_driver_lab.Usb.Device.{
  for_cbw, for_csw, for_read, for_inquiry, for_write, for_device, Memory, coherent, heap, request,
  reference, memory_tagged, Device, blank,
}
use kernel_driver_lab.Usb.Alloc.{Replies, usb_alloc_buffer_and_urb}
use kernel_driver_lab.Usb.Alloc.Paths.{all_granted}
use kernel_driver_lab.Usb.Clear.{usb_clear_buffer_and_urb, disconnect_device}

-- The device after an allocation in which every call is granted.
abbrev pub ready : Device
ready = record blank {
  cbw_urb = some (request for_cbw);
  cbw_buffer = some (coherent for_cbw);
  write_buffer = some (heap for_write);
  write_urb = some (request for_write);
  csw_urb = some (request for_csw);
  csw_buffer = some (heap for_csw);
  read_urb = some (request for_read);
  read_buf = some (coherent for_read);
  inquiry_urb = some (request for_inquiry);
  inquiry_buffer = some (coherent for_inquiry);
}

-- The calls of that allocation; the flag says whether the overwritten buffer was granted.
abbrev pub granted_events : Bool → List (Event Memory)
granted_events lost =
    obtain (coherent for_cbw)
    ∷ obtain (request for_cbw)
    ∷ obtain (heap for_csw)
    ∷ obtain (request for_csw)
    ∷ obtain (coherent for_read)
    ∷ obtain (request for_read)
    ∷ (if lost then obtain (heap for_inquiry) else deny (heap for_inquiry))
    ∷ obtain (coherent for_inquiry)
    ∷ obtain (request for_inquiry)
    ∷ obtain (heap for_write)
    ∷ obtain (request for_write)
    ∷ []

pub alloc-ready :
    (r : Replies)
    → all_granted r ≡ true
    → usb_alloc_buffer_and_urb r blank ≡ ((pos 0, ready), granted_events r.inquiry_kmalloc)
unfolding usb_alloc_buffer_and_urb
alloc-ready r h = ground arith

-- What the device holds once all of the allocation is granted, the newest first.
abbrev pub leaked : Bool → List Memory
leaked lost = coherent for_inquiry ∷ (if lost then heap for_inquiry ∷ [] else [])

-- After an allocation that is granted in full, clearing gives back what it gives back rightly and
-- returns 0; still held are the inquiry buffer and, if it was granted, the overwritten one, and the
-- device keeps both inquiry pointers, one of them to a request block that is free; all its other
-- pointers are NULL.
pub clear-alloc :
    (r : Replies)
    → all_granted r ≡ true
    → let (done, taken) = usb_alloc_buffer_and_urb r blank in
      let (cleared, given) = usb_clear_buffer_and_urb done.1 in
      (cleared.0 ≡ pos 0)
      × (cleared.1 ≡ record blank {
        inquiry_urb = some (request for_inquiry);
        inquiry_buffer = some (coherent for_inquiry);
      })
      × (replay (nothing Memory) (taken ++ given)
          ≡ record { held = leaked r.inquiry_kmalloc; faults = [] })
unfolding usb_alloc_buffer_and_urb usb_clear_buffer_and_urb
clear-alloc r h = ground arith

-- What the disconnection of that device gives back, in order.
abbrev pub ready_returned : List (Event Memory)
ready_returned =
    release (request for_cbw)
    ∷ release (coherent for_cbw)
    ∷ release (request for_csw)
    ∷ release (heap for_csw)
    ∷ release (request for_inquiry)
    ∷ release (request for_read)
    ∷ release (coherent for_read)
    ∷ release (request for_write)
    ∷ release (heap for_write)
    ∷ release reference
    ∷ release (heap for_device)
    ∷ []

pub disconnect-ready :
    (bulk_in bulk_out : ℕ)
    → (disconnect_device
        (record ready { bulk_in_endpointaddr = bulk_in; bulk_out_endpointaddr = bulk_out })).1
      ≡ ready_returned
unfolding disconnect_device
disconnect-ready bulk_in bulk_out = refl
