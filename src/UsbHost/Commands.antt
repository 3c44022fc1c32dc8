-- ===== src/UsbHost/Commands.antt =====
-- `queue_command` and the three completion handlers of usbv1.c. `none` is a pointer that is NULL and
-- read through, or a read past an array.
use kernel_driver_lab.Prelude.{
  ℕ, ◌+◌, ◌-◌, ℤ, pos, enomem, is_negative, is_nonzero, Bool, true, false, not, ltb, ◌==◌,
  if◌then◌else◌, min, Option, none, some, List, [], ◌∷◌, ◌++◌, length, take, get_or, replicate,
}
use kernel_driver_lab.Usb.Wrapper.{Cbw, cbw_sig, byte, u32, le32, le32_at}
use kernel_driver_lab.UsbHost.{
  Direction, dma_from_device, dma_to_device, dma_none, Command, Device, Urb, cbw_urb, sec_urb,
  data_urb, csw_urb, Event, scsi_done, copy, set_resid, usb_submit_urb, usb_clear_halt, lose,
  did_error, did_abort, good, csw_sig, vpd_page_00, fake_inquiry_response, no_sense_response,
}

-- The device after a call, and what the call has done.
abbrev pub Outcome : Type 0
Outcome = Option (Device × List Event)

-- Something done before
abbrev pub after_events : List Event → Outcome → Outcome
after_events es none = none
after_events es (some (d, fs)) = some (d, es ++ fs)

abbrev pub is_from_device : Direction → Bool
is_from_device dma_from_device = true
is_from_device _ = false

-- The bytes of a command that go into its wrapper
abbrev pub block_length : Command → ℕ
block_length scmd = min (byte scmd.cmd_len) 16

abbrev pub command_block : Command → List ℕ
command_block scmd = take (block_length scmd) scmd.cmnd ++ replicate (16 - block_length scmd) 0

-- The wrapper that `queue_command` makes of a command
unfoldable pub wrap : Device → Command → Cbw
wrap d scmd = record {
  signature = cbw_sig;
  tag = u32 d.cbw_tag;
  data_transfer_length = u32 scmd.bufflen;
  flags = if is_from_device scmd.sc_data_direction then 0x80 else 0x00;
  lun = 0;
  cb_length = block_length scmd;
  cb = command_block scmd;
}

-- The block that `data_buffer` pointed to
abbrev pub forgotten : Option (List ℕ) → List Event
forgotten none = []
forgotten (some b) = lose (length b) ∷ []

-- The submission of the wrapper: `allocated` is whether its memory is, `refused` whether
-- `usb_submit_urb` returns an error. The bytes of the command are copied only when it is.
abbrev pub submit : (allocated refused : Bool) → Device → Urb → ℤ × (Device × List Event)
submit false refused d u = (enomem, (record d { cbw = record d.cbw { cb = replicate 16 0 } }, []))
submit true true d u = (enomem, (d, scsi_done did_error ∷ []))
submit true false d u = (pos 0, (d, usb_submit_urb u ∷ []))

-- `queue_command`, once there is memory for the data: `ret` is what `usb_submit_urb` returns.
unfoldable pub send_command : Device → Command → ℤ → ℤ × (Device × List Event)
send_command d scmd ret =
    submit d.cbw_allocated (is_nonzero ret)
      (record d { cbw = wrap d scmd; cbw_tag = u32 (d.cbw_tag + 1) })
      (if d.count == 0 then cbw_urb else sec_urb)

-- The memory for the data, which a command without data does not ask for: `block` is what `kmalloc`
-- returns, `lost` what is forgotten before.
abbrev pub with_memory :
    (empty : Bool) → Option (List ℕ) → List Event → Device → Command → ℤ → ℤ × (Device × List Event)
with_memory true block lost d scmd ret = send_command d scmd ret
with_memory false none lost d scmd ret = (enomem, (record d { data_buffer = none }, lost))
with_memory false (some b) lost d scmd ret =
    let (result, (d', es)) = send_command (record d { data_buffer = some b }) scmd ret in
    (result, (d', lost ++ es))

-- `queue_command`: `coherent` is whether `usb_alloc_coherent` grants a block, whose pointer that of
-- `kmalloc` overwrites.
unfoldable pub queue_command :
    Device → Command → Bool → Option (List ℕ) → ℤ → ℤ × (Device × List Event)
queue_command d scmd coherent block ret =
    with_memory (scmd.bufflen == 0) block
      (forgotten d.data_buffer ++ (if coherent then lose scmd.bufflen ∷ [] else []))
      (record d {
        bufferlength = scmd.bufflen;
        direction = scmd.sc_data_direction;
        active_scmd = some scmd;
      })
      scmd ret

-- `csw_callback`
unfoldable pub csw_callback : Device → ℤ → Outcome
csw_callback d status = elim d.active_scmd [
  | none ↦ none
  | some scmd ↦
      let failed = if is_negative status then scsi_done did_error ∷ [] else [] in
      if not d.csw_filled
      then none
      else if not (le32_at d.csw_buffer 0 == csw_sig)
      then some (d, failed ++ (scsi_done did_error ∷ []))
      else some (record d { active_scmd = none }, failed ++ (scsi_done good ∷ []))
]

-- The status wrapper that `data_callback` makes up
abbrev pub faked_csw : Device → List ℕ
faked_csw d = le32 csw_sig ++ (le32 d.cbw_tag ++ (le32 0 ++ (0x00 ∷ [])))

-- `scsi_sg_copy_from_buffer`, when data has come
abbrev pub answer : Option (List ℕ) → ℕ → Option (List Event)
answer buffer n =
    if n == 0 then some [] else elim buffer [ none ↦ none | some b ↦ some (copy (take n b) ∷ []) ]

-- `sg_virt(sdb->table.sgl)`, at the top of two handlers: it reads through the list of the command's
-- pages, which is NULL for a command without data.
abbrev pub with_pages : Command → Outcome → Outcome
with_pages scmd o = if scmd.bufflen == 0 then none else o

-- `data_callback`: `n` is `urb->actual_length`.
unfoldable pub data_callback : Device → ℤ → ℕ → Outcome
data_callback d status n = elim d.active_scmd [
  | none ↦ none
  | some scmd ↦
      let failed = if is_negative status then scsi_done did_abort ∷ [] else [] in
      let resid = if ltb n d.bufferlength then set_resid (d.bufferlength - n) ∷ [] else [] in
      with_pages scmd (elim (answer d.data_buffer n) [
        | none ↦ none
        | some copied ↦
            after_events (failed ++ (copied ++ resid))
              (csw_callback (record d { csw_buffer = faked_csw d }) (pos 0))
      ])
]

-- The end of `cbw_callback`: the data phase, or the status; `ret` is what `usb_submit_urb` returns.
unfoldable pub next_phase : Device → ℤ → Outcome
next_phase d ret =
    if ltb 0 d.bufferlength
    then elim d.direction [
      | dma_from_device ↦ some (record d { count = 1 }, [])
      | dma_to_device ↦
          some
            (d, if is_nonzero ret then scsi_done did_error ∷ [] else usb_submit_urb data_urb ∷ [])
      | dma_none ↦ some (d, [])
    ]
    else some (
      record d { csw_filled = true },
      if is_nonzero ret then scsi_done did_error ∷ [] else usb_submit_urb csw_urb ∷ [],
    )

-- `case 0x12`
unfoldable pub on_inquiry : Device → Command → Cbw → Outcome
on_inquiry d scmd cbw =
    let len = min scmd.sdb_length d.bufferlength in
    let told = set_resid (scmd.sdb_length - len) ∷ [] in
    if not (get_or cbw.cb 1 0 == 0)
    then after_events (copy (take (min len 4) vpd_page_00) ∷ told) (data_callback d (pos 0) len)
    else if ltb 36 len
    then none
    else after_events (copy (take len fake_inquiry_response) ∷ told) (data_callback d (pos 0) len)

-- The answer that the driver makes up, and the end of the command
abbrev pub no_sense : Command → ℕ → List Event
no_sense scmd len =
    copy (take len no_sense_response) ∷ set_resid (scmd.sdb_length - len) ∷ scsi_done good ∷ []

-- `case 0x03`
unfoldable pub on_request_sense : Device → Command → ℤ → Outcome
on_request_sense d scmd ret =
    let len = min scmd.sdb_length d.bufferlength in
    if ltb 18 len then none else after_events (no_sense scmd len) (next_phase d ret)

-- `cbw_callback`, once it has found its command
unfoldable pub dispatch : Device → Cbw → ℤ → ℤ → Command → Outcome
dispatch d cbw status ret scmd =
    if is_negative status
    then some (d, usb_clear_halt ∷ scsi_done did_error ∷ [])
    else if not (cbw.signature == cbw_sig)
    then some (d, [])
    else if get_or cbw.cb 0 0 == 0x12
    then on_inquiry d scmd cbw
    else if get_or cbw.cb 0 0 == 0x00
    then after_events (set_resid 0 ∷ []) (next_phase d ret)
    else if get_or cbw.cb 0 0 == 0x03
    then on_request_sense d scmd ret
    else next_phase d ret

-- `dev->active_scmd`, read through
abbrev pub through : Option Command → (Command → Outcome) → Outcome
through none f = none
through (some scmd) f = f scmd

-- `cbw_callback`; `cbw` is the wrapper in the buffer of the transfer.
unfoldable pub cbw_callback : Device → Cbw → ℤ → ℤ → Outcome
cbw_callback d cbw status ret =
    through d.active_scmd (λ scmd. with_pages scmd (dispatch d cbw status ret scmd))
