-- ===== src/UsbHost/Memory/Paths.antt =====
-- What every path of the probe returns and leaves held, and what a disconnection leaves.
use kernel_driver_lab.Prelude.{
  ◌≡◌, ℤ, pos, enomem, einval, Bool, not, if◌then◌else◌, Option, none, some, List, [], ◌∷◌, ◌++◌,
  arith,
}
use kernel_driver_lab.Ledger.{Ledger, Event, replay, nothing, obtain}
use kernel_driver_lab.Module.{failure}
use kernel_driver_lab.UsbHost.Memory.{
  Block, host, reference, cbw_urb, cbw_buffer, sec_urb, sec_buffer, csw_urb, csw_buffer, data_urb,
  data_buffer, coherent_data, data_coherent, added, block_tagged, Plugged, bad_endpoints, usb_probe,
  usb_disconnect,
}

-- Why a probe fails
pub data Reason : Type 0 where
  refused : Block → Reason
  no_altsetting no_endpoint : Reason

abbrev pub first : List (Bool × Reason) → Option Reason
first [] = none
first (c ∷ cs) = if c.0 then first cs else some c.1

-- The first thing that is missing
abbrev pub missing : Plugged → Option Reason
missing p = first (
    (p.scsi_host_alloc, refused host)
    ∷ (p.has_altsetting, no_altsetting)
    ∷ (p.cbw_urb, refused cbw_urb)
    ∷ (p.cbw_buffer, refused cbw_buffer)
    ∷ (p.sec_urb, refused sec_urb)
    ∷ (p.sec_buffer, refused sec_buffer)
    ∷ (p.csw_urb, refused csw_urb)
    ∷ (p.csw_buffer, refused csw_buffer)
    ∷ (p.data_urb, refused data_urb)
    ∷ (not (bad_endpoints p.endpoints), no_endpoint)
    ∷ (p.scsi_add_host, refused added)
    ∷ [])

abbrev pub expected_result : Option Reason → ℤ
expected_result none = pos 0
expected_result (some (refused host)) = failure
expected_result (some (refused added)) = failure
expected_result (some (refused b)) = enomem
expected_result (some no_altsetting) = einval
expected_result (some no_endpoint) = einval

abbrev pub plugged : List Block
plugged = reference ∷ host ∷ []

abbrev pub with_cbw : List Block
with_cbw = cbw_buffer ∷ cbw_urb ∷ plugged

abbrev pub with_sec : List Block
with_sec = sec_buffer ∷ sec_urb ∷ with_cbw

abbrev pub with_csw : List Block
with_csw = csw_buffer ∷ csw_urb ∷ with_sec

abbrev pub left : Option Reason → Ledger Block
left none = record { held = added ∷ data_urb ∷ with_csw; faults = [] }
left (some (refused host)) = nothing Block
left (some no_altsetting) = record { held = plugged; faults = [] }
left (some (refused cbw_urb)) = record { held = plugged; faults = [] }
left (some (refused cbw_buffer)) = record { held = plugged; faults = [] }
left (some (refused sec_urb)) = record { held = with_cbw; faults = [] }
left (some (refused sec_buffer)) = record { held = with_cbw; faults = [] }
left (some (refused csw_urb)) = record { held = with_sec; faults = [] }
left (some (refused csw_buffer)) = record { held = with_sec; faults = [] }
left (some (refused data_urb)) = record { held = with_csw; faults = [] }
left (some no_endpoint) = record { held = data_urb ∷ with_csw; faults = [] }
left (some (refused b)) = record {
  held = data_urb ∷ sec_buffer ∷ sec_urb ∷ reference ∷ [];
  faults = added ∷ [];
}

-- On every path of the probe, the result, and what stays held or is wrongly given back, are those that
-- the tables give for the first thing that is missing. In short: without a host nothing is held; a
-- probe that fails later keeps the host, the reference and the pairs of a request block and its buffer
-- that are complete; after a refused addition the host and the first and third pair are freed, and an
-- addition is undone that never was.
pub host_probe_paths :
    (p : Plugged)
    → ((usb_probe p).0 ≡ expected_result (missing p))
      × (replay (nothing Block) (usb_probe p).1 ≡ left (missing p))
host_probe_paths p = ground arith

-- The memory that one command with data takes in `queue_command`, with everything granted
abbrev pub between : Bool → List (Event Block)
between has_data = if has_data then obtain coherent_data ∷ obtain data_buffer ∷ [] else []

-- After a probe that succeeds, at most one command, with data and with everything granted, and the
-- disconnection: the second request block and its buffer stay allocated, and nothing else that the probe
-- took but, if there was no command, the request block of the data. If there was one, both blocks for
-- its data stay allocated, and `usb_free_coherent` is called on the one that `kmalloc` returned.
pub host_disconnect_leaves :
    (p : Plugged) (has_data : Bool)
    → missing p ≡ none
    → replay (nothing Block) ((usb_probe p).1 ++ (between has_data ++ (usb_disconnect has_data).1))
      ≡ record {
        held =
            if has_data
            then data_buffer ∷ coherent_data ∷ sec_buffer ∷ sec_urb ∷ []
            else data_urb ∷ sec_buffer ∷ sec_urb ∷ [];
        faults = if has_data then data_coherent ∷ [] else [];
      }
host_disconnect_leaves p has_data h = ground arith
