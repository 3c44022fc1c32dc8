-- ===== src/Usb/Wrapper/Scsi.antt =====
-- The command blocks that the macros build, read back: at the offsets where the macros store their
-- arguments, and at those where the SCSI block commands define them.
use kernel_driver_lab.Prelude.{ℕ, ◌+◌, ◌*◌, ◌/◌, ◌%◌, ◌^◌, ◌<◌, ◌≡◌, arith, get_or}
use kernel_driver_lab.Usb.Wrapper.{Cbw, read_10, write_10}

-- Bytes 1 to 4 and 5 to 6 of the command block, the high byte first: where the macros store.
abbrev pub stored_address : Cbw → ℕ
stored_address c =
    get_or c.cb 1 0 * 2 ^ 24 + get_or c.cb 2 0 * 2 ^ 16 + get_or c.cb 3 0 * 2 ^ 8 + get_or c.cb 4 0

abbrev pub stored_blocks : Cbw → ℕ
stored_blocks c = get_or c.cb 5 0 * 2 ^ 8 + get_or c.cb 6 0

-- READ (10) and WRITE (10) of the SCSI block commands: the logical block address stands in bytes 2
-- to 5 and the transfer length in bytes 7 and 8, the high byte first.
abbrev pub logical_block_address : Cbw → ℕ
logical_block_address c =
    get_or c.cb 2 0 * 2 ^ 24 + get_or c.cb 3 0 * 2 ^ 16 + get_or c.cb 4 0 * 2 ^ 8 + get_or c.cb 5 0

abbrev pub transfer_length : Cbw → ℕ
transfer_length c = get_or c.cb 7 0 * 2 ^ 8 + get_or c.cb 8 0

-- Of a 32-bit address, a 16-bit number of blocks and a size whose product with it fits 32 bits,
-- SCSI_READ_10 and SCSIWRITE_10 lose nothing: bytes 1 to 4 hold the address, bytes 5 and 6 the
-- number of blocks, and the wrapper announces their product; the two differ in direction only.
pub block_command_stored :
    (lba num_blocks block_size : ℕ)
    → lba < 2 ^ 32
    → num_blocks < 2 ^ 16
    → num_blocks * block_size < 2 ^ 32
    → (stored_address (read_10 lba num_blocks block_size) ≡ lba)
      × (stored_address (write_10 lba num_blocks block_size) ≡ lba)
      × (stored_blocks (read_10 lba num_blocks block_size) ≡ num_blocks)
      × (stored_blocks (write_10 lba num_blocks block_size) ≡ num_blocks)
      × ((read_10 lba num_blocks block_size).data_transfer_length ≡ num_blocks * block_size)
      × ((write_10 lba num_blocks block_size).data_transfer_length ≡ num_blocks * block_size)
      × ((read_10 lba num_blocks block_size).flags ≡ 0x80)
      × ((write_10 lba num_blocks block_size).flags ≡ 0)
unfolding read_10 write_10
block_command_stored lba num_blocks block_size ha hn hp = omega arith

-- A device that reads the block by the SCSI layout finds another request: its address is the low
-- three bytes of the driver's, moved up by one byte, above the high byte of the number of blocks,
-- and it is asked for no block at all.
pub block_command_misread :
    (lba num_blocks block_size : ℕ)
    → num_blocks < 2 ^ 16
    → (logical_block_address (read_10 lba num_blocks block_size)
        ≡ lba % 2 ^ 24 * 2 ^ 8 + num_blocks / 2 ^ 8)
      × (logical_block_address (write_10 lba num_blocks block_size)
          ≡ lba % 2 ^ 24 * 2 ^ 8 + num_blocks / 2 ^ 8)
      × (transfer_length (read_10 lba num_blocks block_size) ≡ 0)
      × (transfer_length (write_10 lba num_blocks block_size) ≡ 0)
unfolding read_10 write_10
block_command_misread lba num_blocks block_size hn = omega arith
