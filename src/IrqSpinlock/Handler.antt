-- ===== src/IrqSpinlock/Handler.antt =====
-- Why the timer's function never waits for the thread that it interrupts.
use kernel_driver_lab.Prelude.{◌≡◌, Bool, true, false, not, ◌&&◌, ◌||◌, arith}
use kernel_driver_lab.IrqSpinlock.{
  Shared, ThreadPc, looping, peeked, entered, stored, logged, stopped, TimerPc, idle, is_idle,
  spinning, inside, written, printed, leaving, ThreadMove, stop, peek, spin_lock_irqsave, assign,
  log, spin_unlock_irqrestore, TimerMove, fire, spin_lock, assign_timer, log_timer, spin_unlock,
  mod_timer, System, run_thread, migrate, run_timer, Reach, here, later,
}

abbrev pub thread_inside : ThreadPc → Bool
thread_inside entered = true
thread_inside stored = true
thread_inside (logged v) = true
thread_inside _ = false

abbrev pub timer_inside : TimerPc → Bool
timer_inside inside = true
timer_inside written = true
timer_inside (printed v) = true
timer_inside _ = false

-- What a side has stored is still there until it releases the lock.
abbrev pub IsKept : Shared → ThreadPc → Type 0
IsKept m stored = m.global_variable ≡ 50
IsKept m (logged v) = (m.global_variable ≡ 50) × (v ≡ 50)
IsKept m _ = Unit

abbrev pub IsKeptTimer : Shared → TimerPc → Type 0
IsKeptTimer m written = m.global_variable ≡ 100
IsKeptTimer m (printed v) = (m.global_variable ≡ 100) × (v ≡ 100)
IsKeptTimer m _ = Unit

pub record Inv (m : Shared) (p : ThreadPc) (q : TimerPc) : Type 0 where
  pub held : m.locked ≡ (thread_inside p || timer_inside q)
  pub masked : m.enabled ≡ not (thread_inside p)
  pub exclusive : (thread_inside p && timer_inside q) ≡ false
  pub apart : (m.together && (thread_inside p && not (is_idle q))) ≡ false
  pub kept : IsKept m p
  pub kept_timer : IsKeptTimer m q

Thread-Inv :
    {m m' : Shared} {p p' : ThreadPc} {q : TimerPc}
    → (is_idle q || not m.together) ≡ true
    → ThreadMove m p m' p'
    → Inv m p q
    → Inv m' p' q
Thread-Inv e stop v = ground arith
Thread-Inv e peek v = ground arith
Thread-Inv e (spin_lock_irqsave h) v = ground arith
Thread-Inv e assign v = ground arith
Thread-Inv e log v = ground arith
Thread-Inv e spin_unlock_irqrestore v = ground arith

Timer-Inv :
    {m m' : Shared} {q q' : TimerPc} (p : ThreadPc) → TimerMove m q m' q' → Inv m p q → Inv m' p q'
Timer-Inv p (fire h a) v = ground arith
Timer-Inv p (spin_lock h) v = ground arith
Timer-Inv p assign_timer v = ground arith
Timer-Inv p log_timer v = ground arith
Timer-Inv p spin_unlock v = ground arith
Timer-Inv p mod_timer v = ground arith

moved-Inv :
    (m : Shared) (p : ThreadPc) (q : TimerPc) (together : Bool)
    → m.enabled ≡ true
    → Inv m p q
    → Inv (record m { together = together }) p q
moved-Inv m p q together on v =
    let outside : thread_inside p ≡ false = ground (arith, v.masked) in
    record {
      held = v.held;
      masked = v.masked;
      exclusive = v.exclusive;
      apart = ground (arith, outside);
      kept = kept_alike p v.kept;
      kept_timer = kept_timer_alike q v.kept_timer;
    }
  where
    kept_alike : (p : ThreadPc) → IsKept m p → IsKept (record m { together = together }) p
    kept_alike stored h = h
    kept_alike (logged w) h = h
    kept_alike looping h = tt
    kept_alike peeked h = tt
    kept_alike entered h = tt
    kept_alike stopped h = tt

    kept_timer_alike :
        (q : TimerPc) → IsKeptTimer m q → IsKeptTimer (record m { together = together }) q
    kept_timer_alike written h = h
    kept_timer_alike (printed w) h = h
    kept_timer_alike idle h = tt
    kept_timer_alike spinning h = tt
    kept_timer_alike inside h = tt
    kept_timer_alike leaving h = tt

Reach-Inv : {s : System} → Reach s → Inv s.mem s.pc_thread s.pc_timer
Reach-Inv (here together) = ground arith
Reach-Inv (later {s} r (migrate together e on)) =
    moved-Inv s.mem s.pc_thread s.pc_timer together on (Reach-Inv r)
Reach-Inv (later r (run_thread e m)) = Thread-Inv e m (Reach-Inv r)
Reach-Inv (later {s} r (run_timer m)) = Timer-Inv s.pc_thread m (Reach-Inv r)

abbrev pub is_spinning : TimerPc → Bool
is_spinning spinning = true
is_spinning _ = false

lock_free :
    {m : Shared} {p : ThreadPc} {q : TimerPc}
    → Inv m p q
    → (m.together && (is_spinning q && m.locked)) ≡ false
lock_free {q = spinning} v = ground arith
lock_free {q = idle} v = ground arith
lock_free {q = inside} v = ground arith
lock_free {q = written} v = ground arith
lock_free {q = printed w} v = ground arith
lock_free {q = leaving} v = ground arith

-- In every state that is reached, in whatever order the thread and the timer run, on one processor or on
-- two, between which the thread may move: where the timer's function is about to take the lock on the
-- thread's processor, the lock is free, so that it never waits for the thread that it has interrupted,
-- and it does not run there at all while the thread holds the lock; wherever they run, never both are
-- between taking and releasing the lock; and what either has stored or logged under the lock is the
-- variable's value until it releases it: 50 for the thread, 100 for the timer.
pub handler_never_waits :
    {s : System}
    → Reach s
    → ((s.mem.together && (is_spinning s.pc_timer && s.mem.locked)) ≡ false)
      × ((s.mem.together && (thread_inside s.pc_thread && not (is_idle s.pc_timer))) ≡ false)
      × ((thread_inside s.pc_thread && timer_inside s.pc_timer) ≡ false)
      × IsKept s.mem s.pc_thread
      × IsKeptTimer s.mem s.pc_timer
handler_never_waits r =
    let v = Reach-Inv r in (lock_free v, v.apart, v.exclusive, v.kept, v.kept_timer)
