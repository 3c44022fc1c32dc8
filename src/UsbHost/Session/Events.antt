-- ===== src/UsbHost/Session/Events.antt =====
-- The events of calls that follow one another.
use kernel_driver_lab.Prelude.{ℕ, ◌+◌, ◌≡◌, refl, Option, none, some, List, [], ◌∷◌, ◌++◌, arith}
use kernel_driver_lab.UsbHost.{
  Device, Urb, Event, scsi_done, copy, set_resid, usb_submit_urb, usb_clear_halt, lose,
}
use kernel_driver_lab.UsbHost.Commands.{Outcome, after_events}
use kernel_driver_lab.UsbHost.Session.{sent, dones, continued}

-- How often an outcome completes the command
abbrev pub completed : Outcome → Option ℕ
completed none = none
completed (some (d, es)) = some (dones es)

pub dones-append : (es fs : List Event) → dones (es ++ fs) ≡ dones es + dones fs
dones-append [] fs = omega arith
dones-append (scsi_done r ∷ es) fs = omega (arith, dones-append es fs)
dones-append (copy b ∷ es) fs = dones-append es fs
dones-append (set_resid n ∷ es) fs = dones-append es fs
dones-append (usb_submit_urb u ∷ es) fs = dones-append es fs
dones-append (usb_clear_halt ∷ es) fs = dones-append es fs
dones-append (lose n ∷ es) fs = dones-append es fs

pub sent-append : (es fs : List Event) → sent es ≡ none → sent (es ++ fs) ≡ sent fs
sent-append [] fs h = refl
sent-append (scsi_done r ∷ es) fs h = sent-append es fs h
sent-append (copy b ∷ es) fs h = sent-append es fs h
sent-append (set_resid n ∷ es) fs h = sent-append es fs h
sent-append (usb_submit_urb u ∷ es) fs h = ground arith
sent-append (usb_clear_halt ∷ es) fs h = sent-append es fs h
sent-append (lose n ∷ es) fs h = sent-append es fs h

pub after_events-completed :
    (es fs : List Event) (o : Outcome) {n : ℕ}
    → completed (after_events fs o) ≡ some n
    → completed (after_events (es ++ fs) o) ≡ some (dones es + n)
after_events-completed es fs none h = ground arith
after_events-completed es fs (some (d, gs)) h =
    ground (arith, h, dones-append (es ++ fs) gs, dones-append es fs, dones-append fs gs)

-- Events before, none of which submits a request block
pub continued-after :
    (es : List Event) (o : Outcome) (f : Device → Urb → Outcome) {n : ℕ}
    → sent es ≡ none
    → completed (continued o f) ≡ some n
    → completed (continued (after_events es o) f) ≡ some (dones es + n)
continued-after es none f s h = ground arith
continued-after es (some (d, fs)) f {n} s h =
    rw (continued, sent-append es fs s) (by_sent (sent fs) h)
  where
    by_sent :
        (r : Option Urb)
        → completed (elim r [ none ↦ some (d, fs) | some u ↦ after_events fs (f d u) ]) ≡ some n
        → completed
            (elim r [ none ↦ some (d, es ++ fs) | some u ↦ after_events (es ++ fs) (f d u) ])
          ≡ some (dones es + n)
    by_sent none e = ground (arith, e, dones-append es fs)
    by_sent (some u) e = after_events-completed es fs (f d u) e
