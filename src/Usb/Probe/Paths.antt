-- ===== src/Usb/Probe/Paths.antt =====
-- Every path of `usb_probe`, and a device from plugging in to unplugging.
use kernel_driver_lab.Prelude.{
  ℕ, pos, enodev, einval, Bool, true, false, not, ◌&&◌, ◌==◌, if◌then◌else◌, some, List, [], ◌∷◌,
  ◌++◌, ◌≡◌, refl, arith,
}
use kernel_driver_lab.Ledger.{Run, Event, obtain, replay, nothing}
use kernel_driver_lab.Usb.Device.{for_device, Memory, heap, reference, memory_tagged, Device}
use kernel_driver_lab.Usb.Alloc.{usb_alloc_buffer_and_urb}
use kernel_driver_lab.Usb.Alloc.Paths.{all_granted, first_refused, expected_held}
use kernel_driver_lab.Usb.Clear.{disconnect_device, usb_disconnect}
use kernel_driver_lab.Usb.Clear.Lifecycle.{
  ready, leaked, granted_events, ready_returned, alloc-ready, disconnect-ready,
}
use kernel_driver_lab.Usb.Probe.{Endpoint, Plugged, scan_endpoints, usb_probe}

-- The address of the last endpoint that satisfies a test, and 0 where there is none.
abbrev pub last_address : (Endpoint → Bool) → List Endpoint → ℕ → ℕ
last_address test [] found = found
last_address test (e ∷ es) found = last_address test es (if test e then e.address else found)

-- The scan changes two fields, to the addresses of the last bulk endpoint of each direction.
pub scan_endpoints_lem :
    (es : List Endpoint) (d : Device)
    → scan_endpoints es d ≡ record d {
      bulk_in_endpointaddr = last_address (λ e. e.is_bulk_in) es d.bulk_in_endpointaddr;
      bulk_out_endpointaddr = last_address (λ e. e.is_bulk_out) es d.bulk_out_endpointaddr;
    }
unfolding scan_endpoints
scan_endpoints_lem [] d = refl
scan_endpoints_lem (e ∷ es) d = scan_endpoints_lem es (record d {
  bulk_in_endpointaddr = if e.is_bulk_in then e.address else d.bulk_in_endpointaddr;
  bulk_out_endpointaddr = if e.is_bulk_out then e.address else d.bulk_out_endpointaddr;
})

abbrev pub in_address : Plugged → ℕ
in_address p = last_address (λ e. e.is_bulk_in) p.endpoints 0

abbrev pub out_address : Plugged → ℕ
out_address p = last_address (λ e. e.is_bulk_out) p.endpoints 0

-- The device that a successful probe leaves behind.
abbrev pub probed : Plugged → Device
probed p = record ready {
  bulk_in_endpointaddr = in_address p;
  bulk_out_endpointaddr = out_address p;
}

-- When the structure and all of its memory are granted, the probe accepts the interface and
-- schedules the work exactly when at least one of the two bulk addresses that it finds is not 0,
-- and returns -ENODEV otherwise; in both cases the interface keeps the device, with the addresses of
-- the last bulk endpoint of each direction, and nothing is given back.
pub probe_granted :
    (p : Plugged)
    → p.kzalloc ≡ true
    → p.has_altsetting ≡ true
    → all_granted p.replies ≡ true
    → (usb_probe p).0 ≡ (
        let neither = in_address p == 0 && out_address p == 0 in
        record {
          result = if neither then enodev else pos 0;
          intfdata = some (probed p);
          scheduled = not neither;
        })
unfolding usb_probe
probe_granted p hk ha h =
    rw (hk, ha, alloc-ready p.replies h, scan_endpoints_lem p.endpoints ready) (ground arith)

-- When the structure is granted and some call of the allocation is refused, the probe returns
-- -EINVAL and schedules nothing, and still holds what the allocation left, the reference to the
-- USB device and the structure.
pub probe_refused :
    (p : Plugged)
    → p.kzalloc ≡ true
    → p.has_altsetting ≡ true
    → all_granted p.replies ≡ false
    → let (outcome, events) = usb_probe p in
      (outcome.result ≡ einval)
      × (outcome.scheduled ≡ false)
      × (replay (nothing Memory) events ≡ record {
        held =
            expected_held (first_refused p.replies) p.replies.inquiry_kmalloc
            ++ (reference ∷ heap for_device ∷ []);
        faults = [];
      })
unfolding usb_probe usb_alloc_buffer_and_urb
probe_refused p hk ha h = ground arith

-- The calls of a probe that is granted in full, whatever it finds of endpoints.
probe_granted_events :
    (p : Plugged)
    → p.kzalloc ≡ true
    → p.has_altsetting ≡ true
    → all_granted p.replies ≡ true
    → (usb_probe p).1
      ≡ obtain (heap for_device) ∷ obtain reference ∷ granted_events p.replies.inquiry_kmalloc
unfolding usb_probe
probe_granted_events p hk ha h = rw (hk, ha, alloc-ready p.replies h) (ground arith)

replay-granted :
    (lost : Bool) (given : List (Event Memory))
    → given ≡ ready_returned
    → replay
        (nothing Memory)
        ((obtain (heap for_device) ∷ obtain reference ∷ granted_events lost) ++ given)
      ≡ record { held = leaked lost; faults = [] }
replay-granted true given e = rw e
replay-granted false given e = rw e

-- A device that was granted in full, plugged in and then unplugged: the disconnection runs to its
-- end, gives back nothing that is not held, and leaves exactly the inquiry buffers allocated.
pub probe-disconnect :
    (p : Plugged)
    → p.kzalloc ≡ true
    → p.has_altsetting ≡ true
    → all_granted p.replies ≡ true
    → (run : Run Memory (Unit {0})) × (usb_disconnect (usb_probe p).0.intfdata ≡ some run)
      × (replay (nothing Memory) ((usb_probe p).1 ++ run.1)
          ≡ record { held = leaked p.replies.inquiry_kmalloc; faults = [] })
unfolding usb_probe usb_disconnect
probe-disconnect p hk ha h = (
  disconnect_device (scan_endpoints p.endpoints ready),
  rw (hk, ha, alloc-ready p.replies h) (ground arith),
  rw (probe_granted_events p hk ha h) (
      replay-granted _ (disconnect_device (scan_endpoints p.endpoints ready)).1 (
        rw (scan_endpoints_lem p.endpoints ready)
          (disconnect-ready (in_address p) (out_address p)))),
)
