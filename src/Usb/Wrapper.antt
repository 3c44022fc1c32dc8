-- ===== src/Usb/Wrapper.antt =====
-- The command block wrapper of k_usb_module-26/usb.c: the packed structure, the macros that fill
-- it for each SCSI command, and its 31 bytes in memory.
pub mod Layout
pub mod Scsi
use kernel_driver_lab.Prelude.{
  ℕ, ◌+◌, ◌*◌, ◌/◌, ◌%◌, ◌^◌, List, [], ◌∷◌, ◌++◌, set, replicate, get_or, take, drop,
}

-- `struct command_block_wrapper`, packed. The `__le32` fields hold the number that `cpu_to_le32`
-- was given.
pub record Cbw : Type 0 where
  pub signature : ℕ  -- __le32
  pub tag : ℕ  -- __le32
  pub data_transfer_length : ℕ  -- __le32
  pub flags : ℕ  -- __u8
  pub lun : ℕ  -- __u8
  pub cb_length : ℕ  -- __u8
  pub cb : List ℕ  -- __u8[16]

abbrev pub cbw_sig : ℕ
cbw_sig = 0x43425355

abbrev pub cbw_tag : ℕ
cbw_tag = 0x12345678

abbrev pub cbw_len : ℕ
cbw_len = 31

-- `& 0xFF`, and the conversion to `uint8_t`
abbrev pub byte : ℕ → ℕ
byte x = x % 256

-- `cpu_to_le32` of an `int` expression
abbrev pub u32 : ℕ → ℕ
u32 x = x % 2 ^ 32

-- `memset(&(cbw), 0, sizeof(cbw))`
abbrev pub zeroed : Cbw
zeroed = record {
  signature = 0;
  tag = 0;
  data_transfer_length = 0;
  flags = 0;
  lun = 0;
  cb_length = 0;
  cb = replicate 16 0;
}

-- SCSI_TEST_UNIT_READY
unfoldable pub test_unit_ready : Cbw
test_unit_ready = record zeroed {
  signature = cbw_sig;
  tag = cbw_tag;
  data_transfer_length = 0;
  flags = 0x00;
  lun = 0;
  cb_length = 6;
  cb = set (replicate 16 0) 0 0x00;
}

-- SCSI_REQUEST_SENSE: the assignment to a `__u8` keeps the low byte of `alloc_len`.
unfoldable pub request_sense : ℕ → Cbw
request_sense alloc_len = record zeroed {
  signature = cbw_sig;
  tag = cbw_tag;
  data_transfer_length = u32 alloc_len;
  flags = 0x80;
  lun = 0;
  cb_length = 6;
  cb = set (set (replicate 16 0) 0 0x03) 4 (byte alloc_len);
}

-- SCSI_INQUIRY
unfoldable pub inquiry : ℕ → Cbw
inquiry alloc_len = record zeroed {
  signature = cbw_sig;
  tag = cbw_tag;
  data_transfer_length = u32 alloc_len;
  flags = 0x80;
  lun = 0;
  cb_length = 6;
  cb =
      set
        (set (set (set (set (set (replicate 16 0) 0 0x12) 1 0x00) 2 0x00) 3 0x00) 4
          (byte alloc_len))
        5 0x00;
}

-- SCSI_READ_CAPACITY_10
unfoldable pub read_capacity_10 : Cbw
read_capacity_10 = record zeroed {
  signature = cbw_sig;
  tag = cbw_tag;
  data_transfer_length = 8;
  flags = 0x80;
  lun = 0;
  cb_length = 10;
  cb = set (replicate 16 0) 0 0x25;
}

-- The bytes that SCSI_READ_10 and SCSIWRITE_10 store one by one after the operation code.
abbrev pub block_address : List ℕ → ℕ → ℕ → List ℕ
block_address cb lba num_blocks =
    set
      (set
        (set
          (set (set (set cb 1 (byte (lba / 2 ^ 24))) 2 (byte (lba / 2 ^ 16))) 3
            (byte (lba / 2 ^ 8)))
          4 (byte lba))
        5 (byte (num_blocks / 2 ^ 8)))
      6 (byte num_blocks)

-- SCSI_READ_10
unfoldable pub read_10 : ℕ → ℕ → ℕ → Cbw
read_10 lba num_blocks block_size = record zeroed {
  signature = cbw_sig;
  tag = cbw_tag;
  data_transfer_length = u32 (num_blocks * block_size);
  flags = 0x80;
  lun = 0;
  cb_length = 10;
  cb = block_address (set (replicate 16 0) 0 0x28) lba num_blocks;
}

-- SCSIWRITE_10
unfoldable pub write_10 : ℕ → ℕ → ℕ → Cbw
write_10 lba num_blocks block_size = record zeroed {
  signature = cbw_sig;
  tag = cbw_tag;
  data_transfer_length = u32 (num_blocks * block_size);
  flags = 0x00;
  lun = 0;
  cb_length = 10;
  cb = block_address (set (replicate 16 0) 0 0x2A) lba num_blocks;
}

-- A 32-bit field in memory, the low byte first, whatever the processor's order.
abbrev pub le32 : ℕ → List ℕ
le32 x = byte x ∷ byte (x / 2 ^ 8) ∷ byte (x / 2 ^ 16) ∷ byte (x / 2 ^ 24) ∷ []

-- `le32_to_cpu` of the four bytes from offset `i` on
abbrev pub le32_at : List ℕ → ℕ → ℕ
le32_at bytes i =
    get_or bytes i 0
    + get_or bytes (i + 1) 0 * 2 ^ 8
    + get_or bytes (i + 2) 0 * 2 ^ 16
    + get_or bytes (i + 3) 0 * 2 ^ 24

-- `memcpy(dev->cbw_buffer, &dev->my_cbw, CBW_LEN)`: the packed structure as bytes.
unfoldable pub bytes_of : Cbw → List ℕ
bytes_of c =
    le32 c.signature
    ++ (le32 c.tag ++ (le32 c.data_transfer_length ++ (c.flags ∷ c.lun ∷ c.cb_length ∷ c.cb)))

-- `(struct command_block_wrapper *) urb->transfer_buffer`: bytes read as the packed structure.
unfoldable pub wrapper_at : List ℕ → Cbw
wrapper_at bytes = record {
  signature = le32_at bytes 0;
  tag = le32_at bytes 4;
  data_transfer_length = le32_at bytes 8;
  flags = get_or bytes 12 0;
  lun = get_or bytes 13 0;
  cb_length = get_or bytes 14 0;
  cb = take 16 (drop 15 bytes);
}
