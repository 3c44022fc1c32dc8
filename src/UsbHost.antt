-- ===== src/UsbHost.antt =====
-- k_usb_module-26/usbv1.c: the driver of a mass-storage device as a host of the SCSI layer. The SCSI
-- layer hands it commands, one at a time, and waits for each until the driver calls `scsi_done`.
pub mod Commands
pub mod Memory
pub mod Recovery
pub mod Session
mod Tests
use kernel_driver_lab.Prelude.{ℕ, ◌*◌, ◌^◌, Bool, Option, List, [], ◌∷◌, ◌++◌}
use kernel_driver_lab.Usb.Wrapper.{Cbw}

pub data Direction : Type 0 where
  dma_from_device dma_to_device dma_none : Direction

-- `struct scsi_cmnd`, of which the driver uses: the bytes of the command, its direction, the length
-- of its data, and that of the buffer behind it.
pub record Command : Type 0 where
  pub cmnd : List ℕ
  pub cmd_len : ℕ
  pub sc_data_direction : Direction
  pub bufflen : ℕ
  pub sdb_length : ℕ

-- `struct my_usb_storage`, of which the command path uses:
pub record Device : Type 0 where
  pub bufferlength : ℕ
  pub direction : Direction
  pub active_scmd : Option Command
  pub cbw_tag : ℕ
  pub cbw : Cbw
  pub count : ℕ
  pub cbw_allocated : Bool  -- cbw_buffer and cbw_urb are not NULL
  pub csw_buffer : List ℕ
  pub csw_filled : Bool  -- csw_urb->transfer_buffer is csw_buffer, and not NULL
  pub data_buffer : Option (List ℕ)

pub data Urb : Type 0 where
  cbw_urb sec_urb data_urb csw_urb : Urb

-- What the driver does to the SCSI layer, to the bus and to memory.
pub data Event : Type 0 where
  scsi_done : ℕ → Event  -- with `scmd->result`
  copy : List ℕ → Event  -- into the buffer of the command
  set_resid : ℕ → Event
  usb_submit_urb : Urb → Event
  usb_clear_halt : Event
  lose : ℕ → Event  -- a block of memory of this size, whose pointer is overwritten

-- DID_ERROR << 16, DID_ABORT << 16
abbrev pub did_error : ℕ
did_error = 7 * 2 ^ 16

abbrev pub did_abort : ℕ
did_abort = 5 * 2 ^ 16

-- (DID_OK << 16) | SAM_STAT_GOOD
abbrev pub good : ℕ
good = 0

abbrev pub csw_sig : ℕ
csw_sig = 0x53425355

abbrev pub vpd_page_00 : List ℕ
vpd_page_00 = 0x00 ∷ 0x00 ∷ 0x00 ∷ 0x00 ∷ []

abbrev pub fake_inquiry_response : List ℕ
fake_inquiry_response =
    (0x00 ∷ 0x80 ∷ 0x05 ∷ 0x02 ∷ 0x1F ∷ 0x00 ∷ 0x00 ∷ 0x00 ∷ [])
    ++ (85 ∷ 83 ∷ 66 ∷ 32 ∷ 32 ∷ 83 ∷ 65 ∷ 78 ∷ [])
    ++ (68 ∷ 73 ∷ 83 ∷ 75 ∷ 32 ∷ 32 ∷ 49 ∷ 58 ∷ 49 ∷ 32 ∷ 32 ∷ 32 ∷ 32 ∷ 32 ∷ 32 ∷ 32 ∷ [])
    ++ (48 ∷ 48 ∷ 48 ∷ 49 ∷ [])

abbrev pub no_sense_response : List ℕ
no_sense_response =
    (0x70 ∷ 0x00 ∷ 0x00 ∷ 0x00 ∷ 0x00 ∷ 0x00 ∷ 0x00 ∷ 0x0A ∷ [])
    ++ (0x00 ∷ 0x00 ∷ 0x00 ∷ 0x00 ∷ 0x00 ∷ 0x00 ∷ 0x00 ∷ 0x00 ∷ 0x00 ∷ 0x00 ∷ [])
