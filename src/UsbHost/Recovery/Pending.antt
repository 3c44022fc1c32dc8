-- ===== src/UsbHost/Recovery/Pending.antt =====
-- What becomes of a transfer that is on its way when an error handler runs.
use kernel_driver_lab.Prelude.{
  ◌≡◌, ℤ, is_negative, is_nonzero, Bool, true, false, some, List, [], ◌∷◌, ◌==◌, if◌then◌else◌,
  arith,
}
use kernel_driver_lab.UsbHost.{Command, Device, Urb, cbw_urb, sec_urb, data_urb, csw_urb}
use kernel_driver_lab.UsbHost.Commands.{send_command, cbw_callback, dispatch}
use kernel_driver_lab.UsbHost.Session.{sent, dones}
use kernel_driver_lab.UsbHost.Session.Events.{completed}
use kernel_driver_lab.UsbHost.Recovery.{usb_eh_abort}

abbrev pub among : Urb → List Urb → Bool
among u [] = false
among cbw_urb (cbw_urb ∷ us) = true
among sec_urb (sec_urb ∷ us) = true
among data_urb (data_urb ∷ us) = true
among csw_urb (csw_urb ∷ us) = true
among u (v ∷ us) = among u us

-- An abort completes the command once, and cancels its wrapper only while `count` is 0, that is before
-- the first command with data from the device: afterwards the wrapper is sent by the second request
-- block, which stays on its way, and whose handler, when the transfer fails, completes the command once
-- more. This is for a command with data, a device with memory for the wrapper, and a submission that is
-- accepted.
pub abort_keeps_second :
    (d : Device) (scmd : Command) (ret status next : ℤ)
    → d.cbw_allocated ≡ true
    → d.active_scmd ≡ some scmd
    → is_nonzero ret ≡ false
    → is_negative status ≡ true
    → (scmd.bufflen == 0) ≡ false
    → let (device, events) = (send_command d scmd ret).1 in
      let abort = usb_eh_abort device in
      let u = if d.count == 0 then cbw_urb else sec_urb in
      (sent events ≡ some u)
      × (among u abort.killed ≡ (d.count == 0))
      × (dones abort.events ≡ 1)
      × (completed (cbw_callback abort.device abort.device.cbw status next) ≡ some 1)
unfolding send_command usb_eh_abort cbw_callback dispatch
abort_keeps_second d scmd ret status next c a r n z = ground arith
