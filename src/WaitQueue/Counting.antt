-- ===== src/WaitQueue/Counting.antt =====
-- What the thread counts, and when it ends.
use kernel_driver_lab.Prelude.{
  ℕ, ◌+◌, ◌%◌, ◌^◌, ◌≤◌, ◌≡◌, ◌≢◌, Bool, true, false, not, ◌||◌, ◌==◌, if◌then◌else◌, arith,
}
use kernel_driver_lab.WaitQueue.{
  Shared, ThreadPc, waiting, woken, counting, ended, ModulePc, loaded, ThreadMove, wake, see_exit,
  see_read, count, reset, ReadMove, read_sets, ExitMove, exit_sets, exit_wakes, System, run_thread,
  run_read, run_exit, Reach, here, later,
}

abbrev pub is_ended : ThreadPc → Bool
is_ended ended = true
is_ended _ = false

abbrev pub is_loaded : ModulePc → Bool
is_loaded loaded = true
is_loaded _ = false

-- A read is on its way to be counted.
abbrev pub owed : Shared → ThreadPc → ℕ
owed m waiting = if m.wait_queue_flag == 1 then 1 else 0
owed m woken = if m.wait_queue_flag == 1 then 1 else 0
owed m counting = 1
owed m _ = 0

-- The thread knows that the flag is not 0.
abbrev pub IsAwake : Shared → ThreadPc → Type 0
IsAwake m woken = m.wait_queue_flag ≢ 0
IsAwake m _ = Unit

pub record Inv (m : Shared) (p : ThreadPc) (c : ModulePc) : Type 0 where
  pub total : m.read_count ≡ m.counts % 2 ^ 32
  pub bounded : m.counts + owed m p ≤ m.reads
  pub range : m.wait_queue_flag ≤ 2
  pub awake : IsAwake m p
  pub flag : m.wait_queue_flag ≡ 2 → is_loaded c ≡ false
  pub left : is_ended p ≡ true → is_loaded c ≡ false

Thread-Inv :
    {m m' : Shared} {p p' : ThreadPc} (c : ModulePc)
    → ThreadMove m p m' p'
    → Inv m p c
    → Inv m' p' c
Thread-Inv c (wake h) v = ground arith
Thread-Inv c (see_exit h) v = ground arith
Thread-Inv c (see_read h) v = ground arith
Thread-Inv c count v = ground arith
Thread-Inv c reset v = ground arith

Read-Inv :
    {m m' : Shared} {c c' : ModulePc} (p : ThreadPc) → ReadMove m c m' c' → Inv m p c → Inv m' p c'
Read-Inv p read_sets v = ground arith

Exit-Inv :
    {m m' : Shared} {c c' : ModulePc} (p : ThreadPc) → ExitMove m c m' c' → Inv m p c → Inv m' p c'
Exit-Inv p exit_sets v = ground arith
Exit-Inv p exit_wakes v = ground arith

Reach-Inv : {s : System} → Reach s → Inv s.mem s.pc_thread s.pc_module
Reach-Inv here = ground arith
Reach-Inv (later {s} r (run_thread m)) = Thread-Inv s.pc_module m (Reach-Inv r)
Reach-Inv (later {s} r (run_read m)) = Read-Inv s.pc_thread m (Reach-Inv r)
Reach-Inv (later {s} r (run_exit m)) = Exit-Inv s.pc_thread m (Reach-Inv r)

ended_exiting :
    {m : Shared} {p : ThreadPc} {c : ModulePc}
    → Inv m p c
    → (not (is_ended p) || not (is_loaded c)) ≡ true
ended_exiting v = ground arith

no_more : {m : Shared} {p : ThreadPc} {c : ModulePc} → Inv m p c → m.counts ≤ m.reads
no_more v = ground arith

-- In every state that is reached, in whatever order the thread, the reads and the unloading run: the
-- thread has ended only if the unloading has begun; the flag is 0, 1 or 2; and the counter is how often
-- the thread has counted, modulo 2^32, which is at most once for each read.
pub wait_queue_counts :
    {s : System}
    → Reach s
    → ((not (is_ended s.pc_thread) || not (is_loaded s.pc_module)) ≡ true)
      × (s.mem.wait_queue_flag ≤ 2)
      × (s.mem.read_count ≡ s.mem.counts % 2 ^ 32)
      × (s.mem.counts ≤ s.mem.reads)
wait_queue_counts r = let v = Reach-Inv r in (ended_exiting v, v.range, v.total, no_more v)
