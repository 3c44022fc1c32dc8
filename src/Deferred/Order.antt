-- ===== src/Deferred/Order.antt =====
-- Which orders of the calls of an exit function are safe.
use kernel_driver_lab.Prelude.{◌≡◌, Bool, true, false, not, ◌&&◌, List, [], ◌∷◌, arith}
use kernel_driver_lab.Deferred.{
  HandlerPc, quiet, entered, interrupt, queue_work, begin, finish, ExitCall, flush_work,
  destroy_workqueue, free_irq, flush, destroy, free, unload, System, Step, run_handler, run_work,
  run_exit, Steps, here, later, start, is_running, harmed,
}

-- The interrupt is freed before the queue is destroyed, and the work is waited for after that. The
-- arguments: whether the interrupt is freed, and whether the work was waited for since.
abbrev pub orderly_from : Bool → Bool → List ExitCall → Bool
orderly_from freed settled [] = freed && settled
orderly_from freed settled (flush_work ∷ cs) = orderly_from freed freed cs
orderly_from freed settled (destroy_workqueue ∷ cs) = freed && orderly_from freed freed cs
orderly_from freed settled (free_irq ∷ cs) = orderly_from true settled cs

abbrev pub orderly : List ExitCall → Bool
orderly = orderly_from false false

abbrev is_quiet : HandlerPc → Bool
is_quiet quiet = true
is_quiet entered = false

-- A state whose exit function keeps the order; `settled` is whether the work was waited for since the
-- interrupt was freed.
record Inv (settled : Bool) (s : System) : Type 0 where
  order : orderly_from (not s.mem.registered) settled s.calls ≡ true
  calm : s.mem.registered ≡ false → is_quiet s.pc_handler ≡ true
  over :
      settled ≡ true
      → (s.mem.registered ≡ false) × (s.mem.pending ≡ false) × (is_running s.pc_work ≡ false)
  alive : s.mem.queue ≡ false → s.mem.registered ≡ false
  proper : s.mem.misused ≡ false
  gone : s.mem.loaded ≡ false → settled ≡ true

Step-Inv : {b : Bool} {s t : System} → Step s t → Inv b s → (c : Bool) × Inv c t
Step-Inv {b} (run_handler (interrupt e)) v = (b, ground arith)
Step-Inv {b} (run_handler queue_work) v = (b, ground arith)
Step-Inv {b} (run_work (begin e)) v = (b, ground arith)
Step-Inv {b} (run_work finish) v = (b, ground arith)
Step-Inv {s = s} (run_exit (flush p w)) v = (not s.mem.registered, ground arith)
Step-Inv {s = s} (run_exit (destroy p w)) v = (not s.mem.registered, ground arith)
Step-Inv {b} (run_exit (free h)) v = (b, ground arith)
Step-Inv {b} (run_exit unload) v = (b, ground arith)

Steps-Inv :
    {cs : List ExitCall} {s : System}
    → orderly cs ≡ true
    → Steps (start cs) s
    → (b : Bool) × Inv b s
Steps-Inv o here = (false, ground arith)
Steps-Inv o (later r m) = let (b, v) = Steps-Inv o r in Step-Inv m v

unharmed : {b : Bool} {s : System} → Inv b s → s.mem.loaded ≡ false → harmed s ≡ false
unharmed v e = ground arith

-- If the exit function frees the interrupt before it destroys a queue, and waits for the work after
-- that, then in every state that is reached with the module unloaded, in whatever order the interrupt,
-- the work and the unloading run, no code of the module runs or will run, and no work was put on a
-- queue that is destroyed.
pub orderly_safe :
    {cs : List ExitCall} {s : System}
    → orderly cs ≡ true
    → Steps (start cs) s
    → s.mem.loaded ≡ false
    → harmed s ≡ false
orderly_safe o r e = let (b, v) = Steps-Inv o r in unharmed v e
