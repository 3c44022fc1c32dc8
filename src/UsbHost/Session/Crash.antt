-- ===== src/UsbHost/Session/Crash.antt =====
-- What an INQUIRY does before the status request block was ever filled in, and a command without data.
use kernel_driver_lab.Prelude.{
  ℕ, ◌+◌, ◌≡◌, refl, ap, ◌∙◌, ℤ, is_negative, is_nonzero, Bool, true, false, ◌==◌, Option, none,
  some, List, [], ◌∷◌, ◌++◌, if◌then◌else◌, get_or, arith,
}
use kernel_driver_lab.Usb.Wrapper.{Cbw, cbw_sig, u32}
use kernel_driver_lab.UsbHost.{Command, Device, Urb, Event, cbw_urb, sec_urb, usb_submit_urb, lose}
use kernel_driver_lab.UsbHost.Commands.{
  Outcome, after_events, command_block, submit, send_command, queue_command, with_memory,
  csw_callback, data_callback, on_inquiry, dispatch, through, with_pages, cbw_callback, wrap,
  forgotten,
}
use kernel_driver_lab.UsbHost.Session.{Answers, sent, continued, session}
use kernel_driver_lab.UsbHost.Session.Events.{sent-append}
use kernel_driver_lab.UsbHost.Session.Handlers.{follow, serve}
use kernel_driver_lab.UsbHost.Session.Completions.{forgotten-silent}

on_inquiry-none :
    (d : Device) (scmd : Command) (cbw : Cbw) → d.csw_filled ≡ false → on_inquiry d scmd cbw ≡ none
unfolding on_inquiry data_callback csw_callback
on_inquiry-none d scmd cbw f = ground arith

dispatch-none :
    (d : Device) (cbw : Cbw) (status ret : ℤ) (scmd : Command)
    → d.csw_filled ≡ false
    → (cbw.signature == cbw_sig) ≡ true
    → is_negative status ≡ false
    → (get_or cbw.cb 0 0 == 0x12) ≡ true
    → dispatch d cbw status ret scmd ≡ none
unfolding dispatch
dispatch-none d cbw status ret scmd f g n o = rw (n, g, o) (on_inquiry-none d scmd cbw f)

-- An INQUIRY whose wrapper the device takes
pub record IsOnWay (scmd : Command) (k : Answers) : Type 0 where
  pub opcode : (get_or (command_block scmd) 0 0 == 0x12) ≡ true
  pub accepted : is_nonzero k.cbw_ret ≡ false
  pub arrived : is_negative k.cbw_status ≡ false

with_pages-none : (scmd : Command) → with_pages scmd none ≡ none
with_pages-none scmd = ground arith

send_command-none :
    (d : Device) (scmd : Command) (k : Answers)
    → IsOnWay scmd k
    → d.active_scmd ≡ some scmd
    → d.csw_filled ≡ false
    → d.cbw_allocated ≡ true
    → continued (some (send_command d scmd k.cbw_ret).1) (serve k) ≡ none
unfolding send_command cbw_callback wrap
send_command-none d scmd k w a f c =
    let next = record d { cbw = wrap d scmd; cbw_tag = u32 (d.cbw_tag + 1) } in
    let u = if d.count == 0 then cbw_urb else sec_urb in
    let crash : dispatch next (wrap d scmd) k.cbw_status k.next_ret scmd ≡ none =
      dispatch-none next (wrap d scmd) k.cbw_status k.next_ret scmd f refl w.arrived w.opcode in
    ap (λ x. continued (some (submit x (is_nonzero k.cbw_ret) next u).1) (serve k)) c
    ∙ (ap (λ x. continued (some (submit true x next u).1) (serve k)) w.accepted
        ∙ (ap
              (λ o. after_events (usb_submit_urb u ∷ []) (
                continued
                  (through o
                    (λ c. with_pages c (dispatch next (wrap d scmd) k.cbw_status k.next_ret c)))
                  (follow k)))
              a
            ∙ ap
                (λ o.
                  after_events (usb_submit_urb u ∷ []) (continued (with_pages scmd o) (follow k)))
                crash
            ∙ ap (λ o. after_events (usb_submit_urb u ∷ []) (continued o (follow k)))
                (with_pages-none scmd)))

-- Events before, none of which submits a request block
continued-none :
    (es : List Event) (o : Outcome) (f : Device → Urb → Outcome)
    → sent es ≡ none
    → continued o f ≡ none
    → continued (after_events es o) f ≡ none
continued-none es none f s h = refl
continued-none es (some (d, fs)) f s h = rw (continued, sent-append es fs s) (by_sent (sent fs) h)
  where
    by_outcome : (o : Outcome) → after_events fs o ≡ none → after_events (es ++ fs) o ≡ none
    by_outcome none e = refl
    by_outcome (some x) e = ground arith

    by_sent :
        (r : Option Urb)
        → ◌≡◌ {A = Outcome} (elim r [ none ↦ some (d, fs) | some u ↦ after_events fs (f d u) ]) none
        → ◌≡◌ {A = Outcome}
            (elim r [ none ↦ some (d, es ++ fs) | some u ↦ after_events (es ++ fs) (f d u) ])
            none
    by_sent none e = ground arith
    by_sent (some u) e = by_outcome (f d u) e

with_memory-none :
    (empty : Bool) (b : List ℕ) (lost : List Event) (d : Device) (scmd : Command) (k : Answers)
    → IsOnWay scmd k
    → d.active_scmd ≡ some scmd
    → d.csw_filled ≡ false
    → d.cbw_allocated ≡ true
    → sent lost ≡ none
    → continued (some (with_memory empty (some b) lost d scmd k.cbw_ret).1) (serve k) ≡ none
with_memory-none true b lost d scmd k w a f c s = send_command-none d scmd k w a f c
with_memory-none false b lost d scmd k w a f c s =
    let filled = record d { data_buffer = some b } in
    continued-none lost (some (send_command filled scmd k.cbw_ret).1) (serve k) s
      (send_command-none filled scmd k w a f c)

-- If the status request block was never filled in, an INQUIRY that has its memory, and whose wrapper is
-- submitted and arrives, ends in a read through NULL: the driver makes up the status, and calls the
-- handler on a request block that points to no buffer.
pub inquiry_crashes :
    (d : Device) (scmd : Command) (k : Answers) {b : List ℕ}
    → d.csw_filled ≡ false
    → d.cbw_allocated ≡ true
    → k.block ≡ some b
    → IsOnWay scmd k
    → session d scmd k ≡ none
unfolding session queue_command
inquiry_crashes d scmd k {b} f c m w =
    let lost = forgotten d.data_buffer ++ (if k.coherent then lose scmd.bufflen ∷ [] else []) in
    let taken = record d {
      bufferlength = scmd.bufflen;
      direction = scmd.sc_data_direction;
      active_scmd = some scmd;
    } in
    ap
      (λ o.
        continued (some (with_memory (scmd.bufflen == 0) o lost taken scmd k.cbw_ret).1) (serve k))
      m
    ∙ with_memory-none (scmd.bufflen == 0) b lost taken scmd k w refl f c
        (forgotten-silent d.data_buffer k.coherent scmd.bufflen).0

-- A command without data ends in a read through NULL, for every device with memory for the wrapper, and
-- whether or not the transfer of the wrapper succeeds, as long as its submission is accepted: the
-- handler of the wrapper reads through the list of the command's pages before it looks at anything.
pub plain_crashes :
    (d : Device) (scmd : Command) (k : Answers)
    → scmd.bufflen ≡ 0
    → d.cbw_allocated ≡ true
    → is_nonzero k.cbw_ret ≡ false
    → session d scmd k ≡ none
unfolding session queue_command send_command cbw_callback
plain_crashes d scmd k z c r = ground arith
