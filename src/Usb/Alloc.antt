-- ===== src/Usb/Alloc.antt =====
-- `usb_alloc_buffer_and_urb` of k_usb_module-26/usb.c, stage by stage, with its cleanup labels.
-- Each stage goes on to the next one, or jumps to a label; a label whose block does not apply falls
-- through to the label below it.
pub mod Paths
use kernel_driver_lab.Prelude.{
  ℤ, pos, einval, enomem, Bool, ◌||◌, if◌then◌else◌, Option, none, some, List, ◌++◌,
}
use kernel_driver_lab.Ledger.{Run, ◌▷◌, pure, obtain, deny}
use kernel_driver_lab.Usb.Device.{
  for_cbw, for_csw, for_read, for_inquiry, for_write, Memory, coherent, heap, request, is_set,
  Device, usb_free_coherent, kfree, usb_free_urb,
}

-- What the kernel answers to each allocating call: whether the pointer is not NULL.
pub record Replies : Type 0 where
  pub cbw_buffer : Bool
  pub cbw_urb : Bool
  pub csw_buffer : Bool
  pub csw_urb : Bool
  pub read_buf : Bool
  pub read_urb : Bool
  pub inquiry_kmalloc : Bool  -- the first value of `inquiry_buffer`
  pub inquiry_buffer : Bool
  pub inquiry_urb : Bool
  pub write_buffer : Bool
  pub write_urb : Bool

abbrev pub Outcome : Type 0
Outcome = Run Memory (ℤ × Device)

r_write : Device → Outcome
r_write d =
    if is_set d.write_urb || is_set d.write_buffer
    then (
      (einval, record d { write_urb = none; write_buffer = none }),
      usb_free_urb d.write_urb ++ kfree d.write_buffer,
    )
    else pure (einval, d)

r_read : Device → Outcome
r_read d =
    if is_set d.read_urb || is_set d.read_buf
    then (
      (einval, record d { read_urb = none; read_buf = none }),
      usb_free_urb d.read_urb ++ usb_free_coherent d.read_buf,
    )
    else r_write d

-- With the request block set, this label clears `csw_urb` in its place.
r_inquiry : Device → Outcome
r_inquiry d =
    if is_set d.inquiry_urb || is_set d.inquiry_buffer
    then (
      (
        einval,
        record d {
          csw_urb = if is_set d.inquiry_urb then none else d.csw_urb;
          inquiry_buffer = none;
        },
      ),
      usb_free_urb d.inquiry_urb ++ usb_free_coherent d.inquiry_buffer,
    )
    else r_read d

r_csw : Device → Outcome
r_csw d =
    if is_set d.csw_urb || is_set d.csw_buffer
    then (
      (einval, record d { csw_urb = none; csw_buffer = none }),
      usb_free_urb d.csw_urb ++ kfree d.csw_buffer,
    )
    else r_inquiry d

r_cbw : Device → Outcome
r_cbw d =
    if is_set d.cbw_urb || is_set d.cbw_buffer
    then (
      (einval, record d { cbw_urb = none; cbw_buffer = none }),
      usb_free_urb d.cbw_urb ++ usb_free_coherent d.cbw_buffer,
    )
    else r_csw d

module _ (reply : Replies) where
  alloc_write : Device → Outcome
  alloc_write d =
      if reply.write_buffer
      then obtain (heap for_write)
        ▷ (let d1 = record d { write_buffer = some (heap for_write) } in
            if reply.write_urb
            then obtain (request for_write)
              ▷ pure (pos 0, record d1 { write_urb = some (request for_write) })
            else deny (request for_write) ▷ r_write (record d1 { write_urb = none }))
      else deny (heap for_write) ▷ pure (enomem, record d { write_buffer = none })

  -- The pointer that `kmalloc` returns is overwritten by the next call.
  alloc_inquiry : Device → Outcome
  alloc_inquiry d =
      (if reply.inquiry_kmalloc then obtain (heap for_inquiry) else deny (heap for_inquiry))
      ▷ (if reply.inquiry_buffer
          then obtain (coherent for_inquiry)
            ▷ (let d1 = record d { inquiry_buffer = some (coherent for_inquiry) } in
                if reply.inquiry_urb
                then obtain (request for_inquiry)
                  ▷ alloc_write (record d1 { inquiry_urb = some (request for_inquiry) })
                else deny (request for_inquiry) ▷ r_inquiry (record d1 { inquiry_urb = none }))
          else deny (coherent for_inquiry) ▷ pure (enomem, record d { inquiry_buffer = none }))

  alloc_read : Device → Outcome
  alloc_read d =
      if reply.read_buf
      then obtain (coherent for_read)
        ▷ (let d1 = record d { read_buf = some (coherent for_read) } in
            if reply.read_urb
            then obtain (request for_read)
              ▷ alloc_inquiry (record d1 { read_urb = some (request for_read) })
            else deny (request for_read) ▷ r_read (record d1 { read_urb = none }))
      else deny (coherent for_read) ▷ pure (enomem, record d { read_buf = none })

  alloc_csw : Device → Outcome
  alloc_csw d =
      if reply.csw_buffer
      then obtain (heap for_csw)
        ▷ (let d1 = record d { csw_buffer = some (heap for_csw) } in
            if reply.csw_urb
            then obtain (request for_csw)
              ▷ alloc_read (record d1 { csw_urb = some (request for_csw) })
            else deny (request for_csw) ▷ r_csw (record d1 { csw_urb = none }))
      else deny (heap for_csw) ▷ pure (enomem, record d { csw_buffer = none })

  unfoldable pub usb_alloc_buffer_and_urb : Device → Outcome
  unfolding r_cbw r_csw r_inquiry r_read r_write alloc_csw alloc_read alloc_inquiry alloc_write
  usb_alloc_buffer_and_urb d =
      if reply.cbw_buffer
      then obtain (coherent for_cbw)
        ▷ (let d1 = record d { cbw_buffer = some (coherent for_cbw) } in
            if reply.cbw_urb
            then obtain (request for_cbw)
              ▷ alloc_csw (record d1 { cbw_urb = some (request for_cbw) })
            else deny (request for_cbw) ▷ r_cbw (record d1 { cbw_urb = none }))
      else deny (coherent for_cbw) ▷ pure (enomem, record d { cbw_buffer = none })
