-- ===== src/Spinlock/Exclusion.antt =====
-- What the spinlock gives: one thread at a time, and no increment lost.
use kernel_driver_lab.Prelude.{◌%◌, ◌^◌, ◌≡◌, ◌∙◌, refl, Bool, false, ◌&&◌, ◌||◌, arith}
use kernel_driver_lab.Spinlock.{
  Shared, Thread, Pc, loaded, Move, stop, begin_one, peek, begin_two, lock, load, store, check,
  unlock_one, unlock_two, critical, System, Step, run_one, run_two, Reach, here, later,
}

-- What a thread has read is still there.
abbrev pub IsFresh : Shared → Pc → Type 0
IsFresh m (loaded v) = m.global_variable ≡ v
IsFresh m _ = Unit

-- The parts of the invariant, for a thread at `p` and another at `q`.
pub record Pair (m : Shared) (p q : Pc) : Type 0 where
  pub counted : m.global_variable ≡ m.stores % 2 ^ 32
  pub held : m.locked ≡ (critical p || critical q)
  pub apart : (critical p && critical q) ≡ false
  pub mine : IsFresh m p
  pub other : IsFresh m q

Move-Pair :
    {t : Thread} {m m' : Shared} {p p' : Pc} (q : Pc) → Move m t p m' p' → Pair m p q → Pair m' p' q
Move-Pair q stop v = ground arith
Move-Pair q begin_one v = ground arith
Move-Pair q peek v = ground arith
Move-Pair q begin_two v = ground arith
Move-Pair q (lock h) v = ground arith
Move-Pair q load v = ground arith
Move-Pair q (store {v = n}) v = ground arith
Move-Pair q check v = ground arith
Move-Pair q unlock_one v = ground arith
Move-Pair q unlock_two v = ground arith

abbrev pub Inv : System → Type 0
Inv s = Pair s.mem s.pc_one s.pc_two

Pair-swap : {m : Shared} {p q : Pc} → Pair m p q → Pair m q p
Pair-swap {p} {q} v = record {
  counted = v.counted;
  held = v.held ∙ or_comm (critical p) (critical q);
  apart = and_comm (critical q) (critical p) ∙ v.apart;
  mine = v.other;
  other = v.mine;
}
  where
    or_comm : (a b : Bool) → (a || b) ≡ (b || a)
    or_comm a b = ground arith

    and_comm : (a b : Bool) → (a && b) ≡ (b && a)
    and_comm a b = ground arith

Step-Inv : {s t : System} → Step s t → Inv s → Inv t
Step-Inv {s} (run_one mv) v = Move-Pair s.pc_two mv v
Step-Inv {s} (run_two mv) v = Pair-swap (Move-Pair s.pc_one mv (Pair-swap v))

pub Reach-Inv : {s : System} → Reach s → Inv s
Reach-Inv here = record { counted = refl; held = refl; apart = refl; mine = tt; other = tt }
Reach-Inv (later r st) = Step-Inv st (Reach-Inv r)

-- In every state that the two threads reach, in whatever order they run: they are not both between
-- taking and releasing the lock; the lock is taken exactly while one of them is; and the counter is
-- the number of increments stored, modulo 2^32, so that none is lost.
pub spinlock_safe :
    {s : System}
    → Reach s
    → ((critical s.pc_one && critical s.pc_two) ≡ false)
      × (s.mem.locked ≡ (critical s.pc_one || critical s.pc_two))
      × (s.mem.global_variable ≡ s.mem.stores % 2 ^ 32)
spinlock_safe r = let v = Reach-Inv r in (v.apart, v.held, v.counted)
