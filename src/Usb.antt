-- ===== src/Usb.antt =====
-- k_usb_module-26/usb.c: a driver that sends one SCSI command to a mass-storage device by the
-- bulk-only transport. Command wrappers, the memory that a device owns, probe, the chain of
-- completion handlers, disconnect.
pub mod Wrapper
pub mod Device
pub mod Alloc
pub mod Clear
pub mod Probe
pub mod Handlers
mod Tests
