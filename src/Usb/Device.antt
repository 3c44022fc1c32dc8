-- ===== src/Usb/Device.antt =====
-- `struct my_usb_storage` of k_usb_module-26/usb.c: the pointers that a device keeps, and the memory
-- that they may point to, named by the call that allocated it.
use kernel_driver_lab.Prelude.{
  ℕ, ◌+◌, Option, none, some, Bool, true, false, ◌≡◌, arith, Tagged, List, [], ◌∷◌,
}
use kernel_driver_lab.Ledger.{Event, release}
use kernel_driver_lab.Usb.Wrapper.{Cbw, zeroed}

-- What a pair of buffer and request block is for.
pub data Purpose : Type 0 where
  for_cbw for_csw for_read for_inquiry for_write : Purpose
  for_device : Purpose  -- the structure itself

-- Each allocating call stands once in the driver and runs once for a device. `usb_kill_urb`, which
-- only cancels a request and stands before each `usb_free_urb`, is left out.
pub data Memory : Type 0 where
  coherent : Purpose → Memory  -- usb_alloc_coherent
  heap : Purpose → Memory  -- kmalloc, kzalloc
  request : Purpose → Memory  -- usb_alloc_urb
  reference : Memory  -- usb_get_dev
  mismatched : Purpose → Memory  -- handed out by no call: what a freeing call of another kind gets

abbrev pub number : Purpose → ℕ
number for_cbw = 0
number for_csw = 1
number for_read = 2
number for_inquiry = 3
number for_write = 4
number for_device = 5

abbrev pub tag : Memory → ℕ
tag (coherent p) = number p
tag (heap p) = 6 + number p
tag (request p) = 12 + number p
tag reference = 18
tag (mismatched p) = 19 + number p

pub tag-injective : (a b : Memory) → tag a ≡ tag b → a ≡ b
tag-injective (coherent p) b h = ground arith
tag-injective (heap p) b h = ground arith
tag-injective (request p) b h = ground arith
tag-injective reference b h = ground arith
tag-injective (mismatched p) b h = ground arith

instance abbrev pub memory_tagged : Tagged Memory
memory_tagged = record { tag = tag; tag-injective = tag-injective }

-- A pointer of the device: NULL, or memory that some call returned.
abbrev pub Pointer : Type 0
Pointer = Option Memory

abbrev pub is_set : Pointer → Bool
is_set none = false
is_set (some m) = true

pub record Device : Type 0 where
  pub my_cbw : Cbw
  pub bulk_in_endpointaddr : ℕ  -- __u8
  pub bulk_out_endpointaddr : ℕ  -- __u8
  pub cbw_tag : ℕ  -- __le32
  pub cbw_urb : Pointer
  pub cbw_buffer : Pointer
  pub write_buffer : Pointer
  pub write_urb : Pointer
  pub csw_urb : Pointer
  pub csw_buffer : Pointer
  pub read_urb : Pointer
  pub read_buf : Pointer
  pub inquiry_urb : Pointer
  pub inquiry_buffer : Pointer

-- `kzalloc(sizeof(*dev), GFP_KERNEL)`
abbrev pub blank : Device
blank = record {
  my_cbw = zeroed;
  bulk_in_endpointaddr = 0;
  bulk_out_endpointaddr = 0;
  cbw_tag = 0;
  cbw_urb = none;
  cbw_buffer = none;
  write_buffer = none;
  write_urb = none;
  csw_urb = none;
  csw_buffer = none;
  read_urb = none;
  read_buf = none;
  inquiry_urb = none;
  inquiry_buffer = none;
}

-- The size that the allocating call asks for, in bytes; the request blocks have none.
abbrev pub room : Memory → ℕ
room (coherent for_cbw) = 31
room (coherent for_read) = 8
room (coherent for_inquiry) = 18
room (heap for_csw) = 13
room (heap for_inquiry) = 36
room (heap for_write) = 13
room _ = 0

-- The freeing calls, on a pointer. Memory of another kind than the call's own is not what it frees.
abbrev pub as_coherent : Memory → Memory
as_coherent (coherent p) = coherent p
as_coherent (heap p) = mismatched p
as_coherent (request p) = mismatched p
as_coherent reference = mismatched for_device
as_coherent (mismatched p) = mismatched p

abbrev pub as_heap : Memory → Memory
as_heap (heap p) = heap p
as_heap (coherent p) = mismatched p
as_heap (request p) = mismatched p
as_heap reference = mismatched for_device
as_heap (mismatched p) = mismatched p

abbrev pub as_request : Memory → Memory
as_request (request p) = request p
as_request (coherent p) = mismatched p
as_request (heap p) = mismatched p
as_request reference = mismatched for_device
as_request (mismatched p) = mismatched p

abbrev pub usb_free_coherent : Pointer → List (Event Memory)
usb_free_coherent none = []
usb_free_coherent (some m) = release (as_coherent m) ∷ []

abbrev pub kfree : Pointer → List (Event Memory)
kfree none = []
kfree (some m) = release (as_heap m) ∷ []

abbrev pub usb_free_urb : Pointer → List (Event Memory)
usb_free_urb none = []
usb_free_urb (some m) = release (as_request m) ∷ []
