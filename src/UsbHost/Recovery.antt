-- ===== src/UsbHost/Recovery.antt =====
-- The error handlers of usbv1.c, which the SCSI layer calls for a command that is not completed in time.
pub mod Pending
use kernel_driver_lab.Prelude.{ℤ, is_negative, is_nonzero, Bool, if◌then◌else◌, none, List, [], ◌∷◌}
use kernel_driver_lab.UsbHost.{
  Device, Urb, cbw_urb, data_urb, csw_urb, Event, scsi_done, usb_clear_halt, did_abort,
}

pub data Verdict : Type 0 where
  success failed : Verdict

-- What a handler leaves behind. `killed` holds the request blocks that the driver's own code cancels by
-- `usb_kill_urb`; the kernel's `usb_reset_device` cancels by itself what is on its way.
pub record Recovery : Type 0 where
  pub verdict : Verdict
  pub device : Device
  pub killed : List Urb
  pub events : List Event

-- `usb_eh_abort` of a device whose request blocks are allocated; the results of `usb_clear_halt` are
-- only logged.
unfoldable pub usb_eh_abort : Device → Recovery
usb_eh_abort d = record {
  verdict = success;
  device = d;
  killed = cbw_urb ∷ csw_urb ∷ data_urb ∷ [];
  events = usb_clear_halt ∷ usb_clear_halt ∷ scsi_done did_abort ∷ [];
}

-- The end of the two resets
abbrev pub reset : Device → Bool → Recovery
reset d refused =
    if refused then record { verdict = failed; device = d; killed = []; events = [] } else record {
      verdict = success;
      device = record d { cbw_tag = 0; active_scmd = none };
      killed = [];
      events = usb_clear_halt ∷ usb_clear_halt ∷ [];
    }

-- `usb_eh_dev_reset`; `ret` is what `usb_control_msg` returns.
unfoldable pub usb_eh_dev_reset : Device → ℤ → Recovery
usb_eh_dev_reset d ret = reset d (is_negative ret)

-- `usb_eh_bus_reset`; `ret` is what `usb_reset_device` returns.
unfoldable pub usb_eh_bus_reset : Device → ℤ → Recovery
usb_eh_bus_reset d ret = reset d (is_nonzero ret)

-- `usb_eh_host_reset`
unfoldable pub usb_eh_host_reset : Device → ℤ → Recovery
usb_eh_host_reset d ret = usb_eh_bus_reset d ret
