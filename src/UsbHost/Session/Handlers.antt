-- ===== src/UsbHost/Session/Handlers.antt =====
-- How often each part of a command's way completes it.
use kernel_driver_lab.Prelude.{
  ℕ, ◌+◌, ◌≡◌, refl, ap, ◌∙◌, is_negative, is_nonzero, Bool, true, false, not, leb, ltb, ◌==◌,
  if◌then◌else◌, min, none, some, [], ◌∷◌, get_or, arith, Bool-cases, inl, inr,
}
use kernel_driver_lab.Usb.Wrapper.{cbw_sig, u32}
use kernel_driver_lab.UsbHost.{
  dma_from_device, Command, Device, Urb, cbw_urb, sec_urb, set_resid, usb_submit_urb,
}
use kernel_driver_lab.UsbHost.Commands.{
  Outcome, after_events, submit, send_command, next_phase, on_request_sense, dispatch, through,
  with_pages, cbw_callback, wrap, no_sense,
}
use kernel_driver_lab.UsbHost.Session.{Answers, last_phase, continued}
use kernel_driver_lab.UsbHost.Session.Events.{completed, continued-after}

abbrev pub one_if : Bool → ℕ
one_if true = 1
one_if false = 0

-- Data from the device: nothing follows.
pub next_phase-data :
    (d : Device) (k : Answers)
    → d.direction ≡ dma_from_device
    → ltb 0 d.bufferlength ≡ true
    → completed (continued (next_phase d k.next_ret) (λ d2 v. last_phase d2 v k)) ≡ some 0
unfolding next_phase
next_phase-data d k dir l = ground arith

abbrev pub follow : Answers → Device → Urb → Outcome
follow k d v = last_phase d v k

-- What the operation code and the later phases, with `p` completions, make of a command
abbrev pub by_opcode : ℕ → ℕ → Bool → ℕ
by_opcode opcode p failed = if failed then 1 else one_if (opcode == 0x03) + p

on_request_sense-completed :
    (d : Device) (scmd : Command) (k : Answers) {p : ℕ}
    → leb (min scmd.sdb_length d.bufferlength) 18 ≡ true
    → completed (continued (next_phase d k.next_ret) (follow k)) ≡ some p
    → completed (continued (on_request_sense d scmd k.next_ret) (follow k)) ≡ some (1 + p)
unfolding on_request_sense
on_request_sense-completed d scmd k {p} l h =
    let short : ltb 18 (min scmd.sdb_length d.bufferlength) ≡ false = ground arith in
    rw short (
      continued-after (no_sense scmd (min scmd.sdb_length d.bufferlength)) (next_phase d k.next_ret)
        (follow k) refl h)

pub dispatch-completed :
    (d : Device) (scmd : Command) (k : Answers) {p : ℕ}
    → (d.cbw.signature == cbw_sig) ≡ true
    → (get_or d.cbw.cb 0 0 == 0x12) ≡ false
    → ((get_or d.cbw.cb 0 0 == 0x03) ≡ true → leb (min scmd.sdb_length d.bufferlength) 18 ≡ true)
    → completed (continued (next_phase d k.next_ret) (follow k)) ≡ some p
    → completed (continued (dispatch d d.cbw k.cbw_status k.next_ret scmd) (follow k))
      ≡ some (by_opcode (get_or d.cbw.cb 0 0) p (is_negative k.cbw_status))
unfolding dispatch
dispatch-completed d scmd k {p} g other fit ph =
    let opcode = get_or d.cbw.cb 0 0 in
    elim (Bool-cases (is_negative k.cbw_status)) [
      | inl e ↦ rw e refl
      | inr e ↦ elim (Bool-cases (opcode == 0x00)) [
        | inl e2 ↦
            let not_sense : (opcode == 0x03) ≡ false = ground arith in
            rw (e, g, other, e2, not_sense)
              (continued-after (set_resid 0 ∷ []) (next_phase d k.next_ret) (follow k) refl ph)
        | inr e2 ↦ elim (Bool-cases (opcode == 0x03)) [
          | inl e3 ↦ rw (e, g, other, e2, e3) (on_request_sense-completed d scmd k (fit e3) ph)
          | inr e3 ↦ rw (e, g, other, e2, e3) (ph ∙ ap some (omega arith))
        ]
      ]
    ]

-- The phases after `queue_command`
served-completed :
    (d : Device) (scmd : Command) (k : Answers) {n : ℕ}
    → d.active_scmd ≡ some scmd
    → (scmd.bufflen == 0) ≡ false
    → completed (continued (dispatch d d.cbw k.cbw_status k.next_ret scmd) (follow k)) ≡ some n
    → completed (continued (cbw_callback d d.cbw k.cbw_status k.next_ret) (follow k)) ≡ some n
unfolding cbw_callback
served-completed d scmd k a z h =
    let run : Command → Outcome = λ c. dispatch d d.cbw k.cbw_status k.next_ret c in
    ap (λ o. completed (continued (through o (λ c. with_pages c (run c))) (follow k))) a
    ∙ (ap (λ e. completed (continued (if e then none else run scmd) (follow k))) z ∙ h)

submitted-completed :
    (u : Urb) (o : Outcome) {n : ℕ}
    → completed o ≡ some n
    → completed (after_events (usb_submit_urb u ∷ []) o) ≡ some n
submitted-completed u none h = h
submitted-completed u (some (d, es)) h = h

-- The handlers, from the completion of the command wrapper on
abbrev pub serve : Answers → Device → Urb → Outcome
serve k d u = continued (cbw_callback d d.cbw k.cbw_status k.next_ret) (follow k)

-- A command whose wrapper could be made, with `n` completions once it is on its way
abbrev pub by_submission : Bool → Bool → ℕ → ℕ
by_submission allocated refused n = if not allocated then 0 else if refused then 1 else n

submit-completed :
    (allocated refused : Bool) (d : Device) (u : Urb) (k : Answers) {n : ℕ}
    → completed (serve k d u) ≡ some n
    → completed (continued (some (submit allocated refused d u).1) (serve k))
      ≡ some (by_submission allocated refused n)
submit-completed false refused d u k h = refl
submit-completed true true d u k h = refl
submit-completed true false d u k h = submitted-completed u (serve k d u) h

pub send_command-completed :
    (d : Device) (scmd : Command) (k : Answers) {n : ℕ}
    → d.active_scmd ≡ some scmd
    → (scmd.bufflen == 0) ≡ false
    → (let next = record d { cbw = wrap d scmd; cbw_tag = u32 (d.cbw_tag + 1) } in
        completed (continued (dispatch next (wrap d scmd) k.cbw_status k.next_ret scmd) (follow k))
        ≡ some n)
    → completed (continued (some (send_command d scmd k.cbw_ret).1) (serve k))
      ≡ some (by_submission d.cbw_allocated (is_nonzero k.cbw_ret) n)
unfolding send_command
send_command-completed d scmd k a z h =
    let next = record d { cbw = wrap d scmd; cbw_tag = u32 (d.cbw_tag + 1) } in
    submit-completed d.cbw_allocated (is_nonzero k.cbw_ret) next
      (if d.count == 0 then cbw_urb else sec_urb) k (served-completed next scmd k a z h)
