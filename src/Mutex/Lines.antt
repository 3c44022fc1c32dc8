-- ===== src/Mutex/Lines.antt =====
-- The two threads together count as one would.
use kernel_driver_lab.Prelude.{
  ℕ, suc, ◌+◌, ◌%◌, ◌^◌, ◌≡◌, refl, Bool, true, false, ◌&&◌, ◌||◌, ◌⊎◌, inl, inr, List, ◌∷◌, length,
  arith,
}
use kernel_driver_lab.Mutex.{
  Shared, Pc, looping, waiting, entered, loaded, stored, logged, stopped, Move, stop, begin,
  mutex_lock, load, store, print, mutex_unlock, System, Step, run_one, run_two, Reach, here, later,
}

-- The next line of a counter of 32 bits that logs each of its values.
abbrev pub count : List ℕ → List ℕ
count lines = (suc (length lines)) % 2 ^ 32 ∷ lines

abbrev critical : Pc → Bool
critical looping = false
critical waiting = false
critical stopped = false
critical entered = true
critical (loaded v) = true
critical stored = true
critical logged = true

-- Whether the counter is ahead of the log.
abbrev ahead : Pc → ℕ
ahead stored = 1
ahead _ = 0

-- What a thread has read is still there.
abbrev IsFresh : Shared → Pc → Type 0
IsFresh m (loaded v) = m.read_count ≡ v
IsFresh m _ = Unit

-- For a thread at `p` and the other at `q`.
record Inv (m : Shared) (p q : Pc) : Type 0 where
  counted : m.read_count ≡ (length m.log + ahead p + ahead q) % 2 ^ 32
  held : m.locked ≡ (critical p || critical q)
  apart : (critical p && critical q) ≡ false
  mine : IsFresh m p
  other : IsFresh m q

Move-Inv : {m m' : Shared} {p p' q : Pc} → Move m p m' p' → Inv m p q → Inv m' p' q
Move-Inv stop v = ground arith
Move-Inv begin v = ground arith
Move-Inv (mutex_lock h) v = ground arith
Move-Inv load v = ground arith
Move-Inv (store {v = n}) v = ground arith
Move-Inv print v = ground arith
Move-Inv mutex_unlock v = ground arith

Inv-swap : {m : Shared} {p q : Pc} → Inv m p q → Inv m q p
Inv-swap {p} {q} v = ground arith

Reach-Inv : {s : System} → Reach s → Inv s.mem s.pc_one s.pc_two
Reach-Inv here = ground arith
Reach-Inv (later r (run_one m)) = Move-Inv m (Reach-Inv r)
Reach-Inv (later r (run_two m)) = Inv-swap (Move-Inv m (Inv-swap (Reach-Inv r)))

Move-count :
    {m m' : Shared} {p p' q : Pc}
    → Move m p m' p'
    → Inv m p q
    → (m'.log ≡ m.log) ⊎ (m'.log ≡ count m.log)
Move-count stop v = inl refl
Move-count begin v = inl refl
Move-count (mutex_lock h) v = inl refl
Move-count load v = inl refl
Move-count store v = inl refl
Move-count print v = inr (ground arith)
Move-count mutex_unlock v = inl refl

-- In every state that the two threads reach, in whatever order they run, each step of either leaves
-- the log as it is, or adds the line that one counter alone would log next: the number of the lines
-- so far plus one, modulo 2^32.
pub mutex_refines_counter :
    {s t : System} → Reach s → Step s t → (t.mem.log ≡ s.mem.log) ⊎ (t.mem.log ≡ count s.mem.log)
mutex_refines_counter r (run_one m) = Move-count m (Reach-Inv r)
mutex_refines_counter r (run_two m) = Move-count m (Inv-swap (Reach-Inv r))
