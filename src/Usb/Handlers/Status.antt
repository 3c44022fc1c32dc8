-- ===== src/Usb/Handlers/Status.antt =====
-- The status wrapper, as the driver judges it and as the transport defines it.
use kernel_driver_lab.Prelude.{ℕ, ℤ, is_nonzero, false, List, ◌≡◌, ◌↔◌, arith}
use kernel_driver_lab.Usb.Wrapper.{cbw_sig, le32_at}
use kernel_driver_lab.Usb.Device.{Device}
use kernel_driver_lab.Usb.Handlers.{bad_signature, good, csw_callback}

-- The handler is content exactly when the transfer completed, the first four bytes are the
-- signature of a command wrapper and the next four are the tag that was kept.
pub csw_good :
    (d : Device) (status : ℤ) (bytes : List ℕ)
    → (csw_callback d status bytes ≡ good)
      ↔ ((is_nonzero status ≡ false) × (le32_at bytes 0 ≡ cbw_sig) × (le32_at bytes 4 ≡ d.cbw_tag))
unfolding csw_callback
csw_good d status bytes = (λ h. ground arith, λ h. ground arith)

-- dCSWSignature of the bulk-only transport, "USBS".
abbrev pub csw_sig : ℕ
csw_sig = 0x53425355

-- A status wrapper with the signature that the transport defines is rejected for its signature,
-- whatever its tag, on every device and with every transfer that completed.
pub csw_rejects_standard :
    (d : Device) (status : ℤ) (bytes : List ℕ)
    → is_nonzero status ≡ false
    → le32_at bytes 0 ≡ csw_sig
    → csw_callback d status bytes ≡ bad_signature
unfolding csw_callback
csw_rejects_standard d status bytes hs hb = ground arith
