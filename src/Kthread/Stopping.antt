-- ===== src/Kthread/Stopping.antt =====
-- `kthread_stop` ends, and after it the thread does not run.
use kernel_driver_lab.Prelude.{
  ℕ, suc, ◌+◌, ◌%◌, ◌^◌, ◌≤◌, ◌<◌, ◌≡◌, ◌⊎◌, inl, inr, refl, Bool, true, false, not, ◌||◌, arith,
}
use kernel_driver_lab.Kthread.{
  Shared, ThreadPc, testing, adding, sleeping, printing, ended, ThreadMove, go_on, leave, add, wake,
  print, ExitPc, loaded, stopping, stopped, ExitMove, ask, join, System, Step, run_thread, run_exit,
  Reach, here, later,
}

abbrev pub is_ended : ThreadPc → Bool
is_ended testing = false
is_ended adding = false
is_ended sleeping = false
is_ended printing = false
is_ended ended = true

abbrev pub is_stopped : ExitPc → Bool
is_stopped loaded = false
is_stopped stopping = false
is_stopped stopped = true

abbrev pub is_asked : ExitPc → Bool
is_asked loaded = false
is_asked stopping = true
is_asked stopped = true

pub record Inv (m : Shared) (p : ThreadPc) (q : ExitPc) : Type 0 where
  pub counted : m.global_variable ≡ m.rounds % 2 ^ 32
  pub asked : m.should_stop ≡ is_asked q
  pub joined : (not (is_stopped q) || is_ended p) ≡ true
  pub not_early : (not (is_ended p) || is_asked q) ≡ true

Thread-Inv :
    {m m' : Shared} {p p' : ThreadPc} (q : ExitPc) → ThreadMove m p m' p' → Inv m p q → Inv m' p' q
Thread-Inv q (go_on h) v = ground arith
Thread-Inv q (leave h) v = ground arith
Thread-Inv q add v = ground arith
Thread-Inv q wake v = ground arith
Thread-Inv q print v = ground arith

Exit-Inv :
    {m m' : Shared} {p : ThreadPc} {q q' : ExitPc} → ExitMove m p q m' q' → Inv m p q → Inv m' p q'
Exit-Inv ask v = ground arith
Exit-Inv (join h) v = ground arith

Step-Inv :
    {s t : System} → Step s t → Inv s.mem s.pc_thread s.pc_exit → Inv t.mem t.pc_thread t.pc_exit
Step-Inv {s} (run_thread mv) v = Thread-Inv s.pc_exit mv v
Step-Inv (run_exit mv) v = Exit-Inv mv v

Reach-Inv : {s : System} → Reach s → Inv s.mem s.pc_thread s.pc_exit
Reach-Inv here = record { counted = refl; asked = refl; joined = refl; not_early = refl }
Reach-Inv (later r st) = Step-Inv st (Reach-Inv r)

-- How many steps the thread has before its end, once it is asked to stop
abbrev pub rank : ThreadPc → ℕ
rank adding = 4
rank sleeping = 3
rank printing = 2
rank testing = 1
rank ended = 0

-- Steps of the thread, as many as the number, and none of the exit function
pub data Runs (m : Shared) (p : ThreadPc) : ℕ → Shared → ThreadPc → Type 0 where
  none_yet : Runs m p 0 m p
  more :
      {n : ℕ} {m' m'' : Shared} {p' p'' : ThreadPc}
      → Runs m p n m' p'
      → ThreadMove m' p' m'' p''
      → Runs m p (suc n) m'' p''

move-rank :
    {m m' : Shared} {p p' : ThreadPc}
    → ThreadMove m p m' p'
    → m.should_stop ≡ true
    → (m'.should_stop ≡ true) × (rank p' < rank p)
move-rank (go_on h) d = absurd (ground arith)
move-rank (leave h) d = (d, omega arith)
move-rank add d = (d, omega arith)
move-rank wake d = (d, omega arith)
move-rank print d = (d, omega arith)

runs-rank :
    {m : Shared} {p : ThreadPc} {n : ℕ} {m' : Shared} {p' : ThreadPc}
    → m.should_stop ≡ true
    → Runs m p n m' p'
    → (m'.should_stop ≡ true) × (n + rank p' ≤ rank p)
runs-rank d none_yet = (d, omega arith)
runs-rank d (more r mv) =
    let (d', le) = runs-rank d r in let (d'', lt) = move-rank mv d' in (d'', omega arith)

can_run :
    (m : Shared) (p : ThreadPc)
    → m.should_stop ≡ true
    → (p ≡ ended) ⊎ ((m' : Shared) × (p' : ThreadPc) × ThreadMove m p m' p')
can_run m testing d = inr (m, ended, leave d)
can_run m adding d = inr (_, sleeping, add)
can_run m sleeping d = inr (m, printing, wake)
can_run m printing d = inr (m, testing, print)
can_run m ended d = inl refl

rank_bounded : (p : ThreadPc) → rank p ≤ 4
rank_bounded testing = omega arith
rank_bounded adding = omega arith
rank_bounded sleeping = omega arith
rank_bounded printing = omega arith
rank_bounded ended = omega arith

-- In every state that the thread and the exit function reach: the counter is the number of rounds,
-- modulo 2^32; the thread has not ended before it was asked to; and it has ended once kthread_stop has
-- returned.
pub kthread_safe :
    {s : System}
    → Reach s
    → (s.mem.global_variable ≡ s.mem.rounds % 2 ^ 32)
      × ((not (is_ended s.pc_thread) || is_asked s.pc_exit) ≡ true)
      × ((not (is_stopped s.pc_exit) || is_ended s.pc_thread) ≡ true)
kthread_safe r = let v = Reach-Inv r in (v.counted, v.not_early, v.joined)

-- While kthread_stop waits, in any state that comes about, the thread makes at most four more steps, and
-- after any of them it has ended or can make another.
pub kthread_stops :
    {s : System} {n : ℕ} {m : Shared} {p : ThreadPc}
    → Reach s
    → s.pc_exit ≡ stopping
    → Runs s.mem s.pc_thread n m p
    → (n ≤ 4) × ((p ≡ ended) ⊎ ((m' : Shared) × (p' : ThreadPc) × ThreadMove m p m' p'))
kthread_stops {s} {m} {p} r at runs =
    let v = Reach-Inv r in
    let asked : s.mem.should_stop ≡ true = ground (arith, v.asked) in
    let (d, le) = runs-rank asked runs in (omega (arith, rank_bounded s.pc_thread), can_run m p d)
