-- ===== src/Usb/Alloc/Paths.antt =====
-- Every path of the allocation: what is held when it returns, and what the device points to.
use kernel_driver_lab.Prelude.{
  ℤ, pos, einval, enomem, Bool, not, ◌&&◌, if◌then◌else◌, Option, none, some, List, [], ◌∷◌, ◌≡◌,
  arith,
}
use kernel_driver_lab.Ledger.{replay, nothing}
use kernel_driver_lab.Usb.Device.{
  for_cbw, for_csw, for_read, for_inquiry, for_write, for_device, Purpose, Memory, coherent, heap,
  request, reference, mismatched, memory_tagged, blank,
}
use kernel_driver_lab.Usb.Alloc.{Replies, usb_alloc_buffer_and_urb}

-- The ten answers on which the result depends.
abbrev pub all_granted : Replies → Bool
all_granted r =
    r.cbw_buffer
    && (r.cbw_urb
        && (r.csw_buffer
            && (r.csw_urb
                && (r.read_buf
                    && (r.read_urb
                        && (r.inquiry_buffer
                            && (r.inquiry_urb && (r.write_buffer && r.write_urb))))))))

-- The first of the ten calls that is refused.
abbrev pub first_refused : Replies → Option Memory
first_refused r =
    if not r.cbw_buffer
    then some (coherent for_cbw)
    else if not r.cbw_urb
    then some (request for_cbw)
    else if not r.csw_buffer
    then some (heap for_csw)
    else if not r.csw_urb
    then some (request for_csw)
    else if not r.read_buf
    then some (coherent for_read)
    else if not r.read_urb
    then some (request for_read)
    else if not r.inquiry_buffer
    then some (coherent for_inquiry)
    else if not r.inquiry_urb
    then some (request for_inquiry)
    else if not r.write_buffer
    then some (heap for_write)
    else if not r.write_urb
    then some (request for_write)
    else none

-- The memory of the stages that are complete, the newest first.
abbrev pub after_cbw : List Memory
after_cbw = request for_cbw ∷ coherent for_cbw ∷ []

abbrev pub after_csw : List Memory
after_csw = request for_csw ∷ heap for_csw ∷ after_cbw

abbrev pub after_read : List Memory
after_read = request for_read ∷ coherent for_read ∷ after_csw

-- The memory of `kmalloc`, to which nothing points any more.
abbrev pub after_kmalloc : Bool → List Memory
after_kmalloc lost = if lost then heap for_inquiry ∷ after_read else after_read

abbrev pub after_inquiry : Bool → List Memory
after_inquiry lost = request for_inquiry ∷ coherent for_inquiry ∷ after_kmalloc lost

abbrev pub after_write : Bool → List Memory
after_write lost = request for_write ∷ heap for_write ∷ after_inquiry lost

-- The stages before the one in which a call is refused.
abbrev pub stages_before : Purpose → Bool → List Memory
stages_before for_cbw lost = []
stages_before for_csw lost = after_cbw
stages_before for_read lost = after_csw
stages_before for_inquiry lost = after_kmalloc lost
stages_before for_write lost = after_inquiry lost
stages_before for_device lost = []

abbrev pub expected_held : Option Memory → Bool → List Memory
expected_held none lost = after_write lost
expected_held (some (coherent p)) lost = stages_before p lost
expected_held (some (heap p)) lost = stages_before p lost
expected_held (some (request p)) lost = stages_before p lost
expected_held (some reference) lost = []
expected_held (some (mismatched p)) lost = []

-- A refused buffer gives -ENOMEM, a refused request block -EINVAL.
abbrev pub expected_result : Option Memory → ℤ
expected_result none = pos 0
expected_result (some (coherent p)) = enomem
expected_result (some (heap p)) = enomem
expected_result (some (request p)) = einval
expected_result (some reference) = pos 0
expected_result (some (mismatched p)) = pos 0

-- On each of the eleven paths the result is the one that the first refused call calls for, nothing
-- is given back that is not held, and exactly this is held on return: after a refusal the memory of
-- all complete earlier stages and none of the stage that failed, after success that of all five
-- stages; from the inquiry stage on, the overwritten inquiry buffer as well, if it was granted.
pub alloc_paths :
    (r : Replies)
    → let (result, events) = usb_alloc_buffer_and_urb r blank in
      (result.0 ≡ expected_result (first_refused r))
      × (replay (nothing Memory) events
          ≡ record { held = expected_held (first_refused r) r.inquiry_kmalloc; faults = [] })
unfolding usb_alloc_buffer_and_urb
alloc_paths r = ground arith
