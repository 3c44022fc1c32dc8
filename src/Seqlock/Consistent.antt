-- ===== src/Seqlock/Consistent.antt =====
-- What the sequence lock gives: a reading that is not repeated is of one moment.
use kernel_driver_lab.Prelude.{
  ℕ, ◌+◌, ◌%◌, ◌^◌, ◌≤◌, ◌<◌, ◌≡◌, ◌∙◌, Bool, true, false, if◌then◌else◌, arith,
}
use kernel_driver_lab.Seqlock.{
  Shared, WriterPc, ReaderPc, looping, entered, loaded, stored, logged, stopped, begun, printed,
  Write, stop, write_seqlock, load, store, log, write_sequnlock, Read, finish, read_seqbegin, print,
  read_seqretry, accept, System, run_writer, run_reader, Reach, here, later,
}

-- The writer is between `write_seqlock` and `write_sequnlock`.
abbrev pub writing : WriterPc → Bool
writing looping = false
writing stopped = false
writing entered = true
writing (loaded v) = true
writing stored = true
writing (logged v) = true

-- What the writer has loaded is still there.
abbrev pub IsFresh : Shared → WriterPc → Type 0
IsFresh m (loaded v) = m.seq_variable ≡ v
IsFresh m _ = Unit

-- The reader began at an even number; while the sequence is still there, its value is the variable's.
abbrev pub IsCurrent : Shared → ReaderPc → Type 0
IsCurrent m (begun n) = (n % 2 ≡ 0) × (n ≤ m.sequence)
IsCurrent m (printed n v) = (n % 2 ≡ 0) × (n ≤ m.sequence) × (m.sequence ≡ n → m.seq_variable ≡ v)
IsCurrent m _ = Unit

pub record Inv (m : Shared) (w : WriterPc) (r : ReaderPc) : Type 0 where
  pub counted : m.seq_variable ≡ m.stores % 2 ^ 64
  pub held : m.locked ≡ writing w
  pub parity : m.sequence % 2 ≡ (if writing w then 1 else 0)
  pub fresh : IsFresh m w
  pub current : IsCurrent m r

Write-Inv :
    {m m' : Shared} {w w' : WriterPc} (r : ReaderPc) → Write m w m' w' → Inv m w r → Inv m' w' r
Write-Inv r stop v = ground arith
Write-Inv r (write_seqlock h) v = ground arith
Write-Inv r load v = ground arith
Write-Inv r (store {v = n}) v = ground arith
Write-Inv r log v = ground arith
Write-Inv r write_sequnlock v = ground arith

Read-Inv :
    {m m' : Shared} {r r' : ReaderPc} (w : WriterPc) → Read m r m' r' → Inv m w r → Inv m' w r'
Read-Inv w finish v = ground arith
Read-Inv w (read_seqbegin h) v = ground arith
Read-Inv w print v = ground arith
Read-Inv w (read_seqretry h e) v = ground arith
Read-Inv w (accept h) v = ground arith

pub Reach-Inv : {s : System} → Reach s → Inv s.mem s.pc_writer s.pc_reader
Reach-Inv here = ground arith
Reach-Inv (later {s} r (run_writer w)) = Write-Inv s.pc_reader w (Reach-Inv r)
Reach-Inv (later {s} r (run_reader m)) = Read-Inv s.pc_writer m (Reach-Inv r)

accepted :
    {m : Shared} {w : WriterPc} {r : ReaderPc} {n v : ℕ}
    → Inv m w r
    → r ≡ printed n v
    → m.sequence ≡ n
    → (v ≡ m.seq_variable) × (writing w ≡ false)
accepted i e h = ground arith

begun_before :
    {m : Shared} {w : WriterPc} {r : ReaderPc} {n v : ℕ}
    → Inv m w r
    → r ≡ printed n v
    → n ≤ m.sequence
begun_before i e = ground arith

same : (a b : ℕ) → a % 2 ^ 32 ≡ b % 2 ^ 32 → a < b + 2 ^ 32 → b ≤ a → a ≡ b
same a b h few before = omega arith

-- In every state that the two threads reach, in whatever order they run, with a reader that has logged
-- a value, and to whom the 32 bits of the lock's sequence number look as they did when it began, so that
-- it does not repeat: if the number has changed less than 2^32 times meanwhile, no writer is between
-- taking and releasing the lock, and the value is that of the variable, which is the number of increments
-- stored, modulo 2^64.
pub seqlock_reading :
    {s : System} {n v : ℕ}
    → Reach s
    → s.pc_reader ≡ printed n v
    → s.mem.sequence % 2 ^ 32 ≡ n % 2 ^ 32
    → s.mem.sequence < n + 2 ^ 32
    → (writing s.pc_writer ≡ false) × (v ≡ s.mem.seq_variable) × (v ≡ s.mem.stores % 2 ^ 64)
seqlock_reading {s} {n} {v} r e h few =
    let i = Reach-Inv r in
    let (value, outside) = accepted i e (same s.mem.sequence n h few (begun_before i e)) in
    (outside, value, value ∙ i.counted)
