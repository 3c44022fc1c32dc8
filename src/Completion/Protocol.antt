-- ===== src/Completion/Protocol.antt =====
-- When the thread ends, and when it is left behind.
use kernel_driver_lab.Prelude.{ℕ, ◌+◌, ◌≤◌, ◌≡◌, Bool, true, false, not, ◌||◌, arith}
use kernel_driver_lab.Completion.{
  Shared, ThreadPc, Readers, ExitPc, waiting, going_on, ending, ended, outside, exit_asks,
  exit_completes, unloaded, ThreadMove, wake, see_exit, see_read, wait_again, leave, ReadMove,
  ExitMove, read_sets, read_finds, read_finds_none, read_wakes, exit_sets, exit_finds,
  exit_finds_none, exit_wakes, System, run_thread, run_read, run_exit, no_readers, start, Steps,
  here, later,
}

-- The thread has seen that the module is being unloaded.
abbrev pub is_leaving : ThreadPc → Bool
is_leaving ending = true
is_leaving ended = true
is_leaving _ = false

-- `hello_exit` has begun.
abbrev pub is_exiting : ExitPc → Bool
is_exiting outside = false
is_exiting exit_asks = true
is_exiting exit_completes = true
is_exiting unloaded = true

-- What the unloading is about to add to the completion
abbrev pub adds : ExitPc → ℕ
adds exit_completes = 1
adds _ = 0

module _ (limit : ℕ) where
  pub record Inv (m : Shared) (p : ThreadPc) (q : Readers) (c : ExitPc) : Type 0 where
    pub flag : m.wait_flag ≡ 2 → is_exiting c ≡ true
    pub left : is_leaving p ≡ true → is_exiting c ≡ true
    pub few : q.asking + q.completing ≤ limit
    pub once : m.done + q.completing + adds c ≤ limit

  module _ (some_reads : 1 ≤ limit) where
    Thread-Inv :
        {m m' : Shared} {p p' : ThreadPc} (q : Readers) (c : ExitPc)
        → ThreadMove m p m' p'
        → Inv m p q c
        → Inv m' p' q c
    Thread-Inv q c (wake h) v = ground arith
    Thread-Inv q c (see_exit h) v = ground arith
    Thread-Inv q c (see_read h) v = ground arith
    Thread-Inv q c wait_again v = ground arith
    Thread-Inv q c leave v = ground arith

    Read-Inv :
        {m m' : Shared} {q q' : Readers} (p : ThreadPc) (c : ExitPc)
        → c ≡ outside
        → q'.asking + q'.completing ≤ limit
        → ReadMove m q m' q'
        → Inv m p q c
        → Inv m' p q' c
    Read-Inv p c e few read_sets v = ground arith
    Read-Inv p c e few (read_finds a h) v = ground arith
    Read-Inv p c e few (read_finds_none a h) v = ground arith
    Read-Inv p c e few (read_wakes a) v = ground arith

    Exit-Inv :
        {m m' : Shared} {c c' : ExitPc} (p : ThreadPc) (q : Readers)
        → q.completing ≡ 0
        → ExitMove m c m' c'
        → Inv m p q c
        → Inv m' p q c'
    Exit-Inv p q e exit_sets v = ground arith
    Exit-Inv p q e (exit_finds h) v = ground arith
    Exit-Inv p q e (exit_finds_none h) v = ground arith
    Exit-Inv p q e exit_wakes v = ground arith

    Steps-Inv : {s : System} → Steps limit start s → Inv s.mem s.pc_thread s.readers s.pc_exit
    Steps-Inv here = ground arith
    Steps-Inv (later {t} r (run_thread m)) = Thread-Inv t.readers t.pc_exit m (Steps-Inv r)
    Steps-Inv (later {t} r (run_read e few m)) =
        Read-Inv t.pc_thread t.pc_exit e few m (Steps-Inv r)
    Steps-Inv (later {t} r (run_exit a e m)) = Exit-Inv t.pc_thread t.readers e m (Steps-Inv r)

  leaving-exiting :
      {m : Shared} {p : ThreadPc} {q : Readers} {c : ExitPc}
      → Inv m p q c
      → (not (is_leaving p) || is_exiting c) ≡ true
  leaving-exiting v = ground arith

-- For every bound, of at least 1, on the number of reads of the device at a time, and in every state that
-- the thread, the reads and the unloading reach, in whatever order their accesses come: the thread has
-- left its loop, or is about to, only if the unloading has begun; and the completion lets at most as many
-- waits through as reads may be under way, so at most one if they never overlap.
pub completion_safe :
    (limit : ℕ) {s : System}
    → 1 ≤ limit
    → Steps limit start s
    → ((not (is_leaving s.pc_thread) || is_exiting s.pc_exit) ≡ true) × (s.mem.done ≤ limit)
completion_safe limit some_reads r =
    let v = Steps-Inv limit some_reads r in (leaving-exiting limit v, omega (arith, v.once))

-- The module is unloaded, and the thread waits for what nobody will complete.
abbrev pub abandoned : System
abandoned = record {
  mem = record { wait_flag = 0; done = 0 };
  pc_thread = waiting;
  readers = no_readers;
  pc_exit = unloaded;
}

-- The thread has seen the flag of a read and is about to reset it.
abbrev pub resetting : ℕ → System
resetting flag = record {
  mem = record { wait_flag = flag; done = 0 };
  pc_thread = going_on;
  readers = no_readers;
  pc_exit = outside;
}
