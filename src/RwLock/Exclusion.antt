-- ===== src/RwLock/Exclusion.antt =====
-- What the reader-writer lock gives: the writer alone or readers together, and stable values.
use kernel_driver_lab.Prelude.{ℕ, ◌+◌, ◌*◌, ◌%◌, ◌^◌, ◌≡◌, ◌∙◌, refl, true, if◌then◌else◌, arith}
use kernel_driver_lab.RwLock.{
  Shared, WriterPc, ReaderPc, loaded, logged, printed, Write, stop, begin, write_lock, load, store,
  log, write_unlock, Read, finish, start_round, read_lock, print, read_unlock, writing, reading,
  System, Step, run_writer, run_first, run_second, Reach, here, later,
}

-- What the writer has read is still there.
abbrev pub IsFresh : Shared → WriterPc → Type 0
IsFresh m (loaded v) = m.global_variable ≡ v
IsFresh m (logged v) = m.global_variable ≡ v
IsFresh m _ = Unit

-- What a reader has printed is still there.
abbrev pub IsStable : Shared → ReaderPc → Type 0
IsStable m (printed v) = m.global_variable ≡ v
IsStable m _ = Unit

-- The invariant, for the writer at `w` and the readers at `p` and `q`.
pub record Inv (m : Shared) (w : WriterPc) (p q : ReaderPc) : Type 0 where
  pub counted : m.global_variable ≡ (10 * m.stores) % 2 ^ 32
  pub written : m.writer ≡ writing w
  pub read : m.readers ≡ reading p + reading q
  pub apart : m.writer ≡ true → m.readers ≡ 0
  pub fresh : IsFresh m w
  pub first : IsStable m p
  pub second : IsStable m q

Write-Inv :
    {m m' : Shared} {w w' : WriterPc} (p q : ReaderPc)
    → Write m w m' w'
    → Inv m w p q
    → Inv m' w' p q
Write-Inv p q stop v = ground arith
Write-Inv p q begin v = ground arith
Write-Inv p q (write_lock h e) v = ground arith
Write-Inv p q load v = ground arith
Write-Inv p q (store {v = n}) v = ground arith
Write-Inv p q log v = ground arith
Write-Inv p q write_unlock v = ground arith

Read-Inv :
    {m m' : Shared} {p p' : ReaderPc} (w : WriterPc) (q : ReaderPc)
    → Read m p m' p'
    → Inv m w p q
    → Inv m' w p' q
Read-Inv w q finish v = ground arith
Read-Inv w q start_round v = ground arith
Read-Inv w q (read_lock h) v = ground arith
Read-Inv w q print v = ground arith
Read-Inv w q read_unlock v = ground arith

-- The two readers may change places.
Inv-swap : {m : Shared} {w : WriterPc} {p q : ReaderPc} → Inv m w p q → Inv m w q p
Inv-swap {p} {q} v = record {
  counted = v.counted;
  written = v.written;
  read = v.read ∙ add_comm (reading p) (reading q);
  apart = v.apart;
  fresh = v.fresh;
  first = v.second;
  second = v.first;
}
  where
    add_comm : (a b : ℕ) → a + b ≡ b + a
    add_comm a b = omega arith

abbrev pub IsSound : System → Type 0
IsSound s = Inv s.mem s.pc_writer s.pc_first s.pc_second

Step-IsSound : {s t : System} → Step s t → IsSound s → IsSound t
Step-IsSound {s} (run_writer w) v = Write-Inv s.pc_first s.pc_second w v
Step-IsSound {s} (run_first r) v = Read-Inv s.pc_writer s.pc_second r v
Step-IsSound {s} (run_second r) v = Inv-swap (Read-Inv s.pc_writer s.pc_first r (Inv-swap v))

pub Reach-IsSound : {s : System} → Reach s → IsSound s
Reach-IsSound here = record {
  counted = refl;
  written = refl;
  read = refl;
  apart = λ h. refl;
  fresh = tt;
  first = tt;
  second = tt;
}
Reach-IsSound (later r st) = Step-IsSound st (Reach-IsSound r)

none_reading :
    {m : Shared} {w : WriterPc} {p q : ReaderPc}
    → Inv m w p q
    → (if writing w then reading p + reading q else 0) ≡ 0
none_reading v = ground arith

-- In every state that the three threads reach, in whatever order they run: while the writer is
-- between taking and releasing the lock, no reader is; the lock counts the readers that are between
-- taking and releasing it; the variable is ten times the number of sums stored, modulo 2^32; and
-- a value that a reader has printed is the variable's until the reader releases the lock.
pub rwlock_safe :
    {s : System}
    → Reach s
    → ((if writing s.pc_writer then reading s.pc_first + reading s.pc_second else 0) ≡ 0)
      × (s.mem.writer ≡ writing s.pc_writer)
      × (s.mem.readers ≡ reading s.pc_first + reading s.pc_second)
      × (s.mem.global_variable ≡ (10 * s.mem.stores) % 2 ^ 32)
      × IsStable s.mem s.pc_first
      × IsStable s.mem s.pc_second
rwlock_safe r =
    let v = Reach-IsSound r in (none_reading v, v.written, v.read, v.counted, v.first, v.second)
