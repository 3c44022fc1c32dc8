-- ===== src/UsbHost/Memory.antt =====
-- `usb_probe`, `usb_disconnect` and the memory of a device in usbv1.c.
pub mod Paths
use kernel_driver_lab.Prelude.{
  ℕ, ◌≡◌, ℤ, pos, enomem, einval, Bool, true, false, not, ◌&&◌, ◌==◌, if◌then◌else◌, is_nonzero,
  List, [], ◌∷◌, Tagged, arith,
}
use kernel_driver_lab.Ledger.{Run, ◌▷◌, ◌>>=◌, pure, obtain, deny, release}
use kernel_driver_lab.Module.{failure}
use kernel_driver_lab.Usb.Probe.{Endpoint}

-- What the driver holds for a device.
pub data Block : Type 0 where
  host : Block  -- scsi_host_alloc, with the structure of the device
  reference : Block  -- usb_get_dev
  cbw_urb cbw_buffer sec_urb sec_buffer csw_urb csw_buffer data_urb : Block
  coherent_data : Block  -- usb_alloc_coherent of queue_command, whose pointer is overwritten
  data_buffer : Block  -- kmalloc of queue_command
  data_coherent : Block  -- data_buffer as memory of usb_alloc_coherent, which it never is
  added : Block  -- scsi_add_host

abbrev pub number : Block → ℕ
number host = 0
number reference = 1
number cbw_urb = 2
number cbw_buffer = 3
number sec_urb = 4
number sec_buffer = 5
number csw_urb = 6
number csw_buffer = 7
number data_urb = 8
number data_buffer = 9
number added = 10
number coherent_data = 11
number data_coherent = 12

pub number-injective : (a b : Block) → number a ≡ number b → a ≡ b
number-injective host b h = ground arith
number-injective reference b h = ground arith
number-injective cbw_urb b h = ground arith
number-injective cbw_buffer b h = ground arith
number-injective sec_urb b h = ground arith
number-injective sec_buffer b h = ground arith
number-injective csw_urb b h = ground arith
number-injective csw_buffer b h = ground arith
number-injective data_urb b h = ground arith
number-injective data_buffer b h = ground arith
number-injective coherent_data b h = ground arith
number-injective data_coherent b h = ground arith
number-injective added b h = ground arith

instance abbrev pub block_tagged : Tagged Block
block_tagged = record { tag = number; tag-injective = number-injective }

-- Whether the kernel grants each block, and what the interface is like.
pub record Plugged : Type 0 where
  pub scsi_host_alloc : Bool
  pub has_altsetting : Bool
  pub endpoints : List Endpoint
  pub cbw_urb : Bool
  pub cbw_buffer : Bool
  pub sec_urb : Bool
  pub sec_buffer : Bool
  pub csw_urb : Bool
  pub csw_buffer : Bool
  pub data_urb : Bool
  pub scsi_add_host : Bool

-- A call for a block: where the function goes when it is refused, and when it is granted.
abbrev pub claim : Block → Bool → Run Block ℤ → Run Block ℤ → Run Block ℤ
claim b granted refused rest = if granted then obtain b ▷ rest else deny b ▷ refused

-- `allocate_usb_resource`; each label frees the request block whose buffer is refused.
abbrev pub allocate_usb_resource : Plugged → Run Block ℤ
allocate_usb_resource p = claim cbw_urb p.cbw_urb (pure enomem) (
    claim cbw_buffer p.cbw_buffer (release cbw_urb ▷ pure failure) (
      claim sec_urb p.sec_urb (pure enomem) (
        claim sec_buffer p.sec_buffer (release sec_urb ▷ pure failure) (
          claim csw_urb p.csw_urb (pure enomem) (
            claim csw_buffer p.csw_buffer (release csw_urb ▷ pure failure)
              (claim data_urb p.data_urb (pure enomem) (pure (pos 0))))))))

-- `deallocate_usb_resource` of a device with all its request blocks; `has_data` is whether
-- `data_buffer` is not NULL. It comes from `kmalloc`, and goes to `usb_free_coherent`.
abbrev pub deallocate_usb_resource : Bool → Run Block Unit
deallocate_usb_resource has_data =
    release cbw_urb
    ▷ (release cbw_buffer
        ▷ (release csw_urb
            ▷ (release csw_buffer
                ▷ (if has_data
                    then release data_urb ▷ (release data_coherent ▷ pure tt)
                    else pure tt))))

-- The addresses of the last endpoints of each kind, or 0
abbrev pub bulk_in : List Endpoint → ℕ → ℕ
bulk_in [] a = a
bulk_in (e ∷ es) a = bulk_in es (if e.is_bulk_in then e.address else a)

abbrev pub bulk_out : List Endpoint → ℕ → ℕ
bulk_out [] a = a
bulk_out (e ∷ es) a = bulk_out es (if e.is_bulk_out then e.address else a)

abbrev pub bad_endpoints : List Endpoint → Bool
bad_endpoints es = (bulk_in es 0 == 0) && (bulk_out es 0 == 0)

-- The label `r_scsi`, with a host
abbrev pub r_scsi : Run Block ℤ
r_scsi = release added ▷ (deallocate_usb_resource false >>= (λ x. release host ▷ pure failure))

-- `usb_probe`, once there is memory
abbrev pub add_host : Plugged → Run Block ℤ
add_host p =
    if bad_endpoints p.endpoints
    then pure einval
    else claim added p.scsi_add_host r_scsi (pure (pos 0))

abbrev pub usb_probe : Plugged → Run Block ℤ
usb_probe p = claim host p.scsi_host_alloc (pure failure) (
    obtain reference
    ▷ (if not p.has_altsetting
        then pure einval
        else allocate_usb_resource p
          >>= (λ result. if is_nonzero result then pure enomem else add_host p)))

-- `usb_disconnect`
abbrev pub usb_disconnect : Bool → Run Block Unit
usb_disconnect has_data =
    release added
    ▷ (deallocate_usb_resource has_data >>= (λ x. release reference ▷ (release host ▷ pure tt)))
