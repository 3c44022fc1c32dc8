-- ===== src/Atomic/Counts.antt =====
-- What the atomic operations give without a lock: no increment is lost, and the flips alternate.
use kernel_driver_lab.Prelude.{
  ℕ, zero, suc, ◌+◌, ◌*◌, ◌%◌, ◌^◌, ◌≡◌, refl, ap₂, List, [], ◌∷◌, length, arith,
}
use kernel_driver_lab.Atomic.{
  Shared, bit_one, Pc, counted, Move, stop, atomic_inc, test_and_change_bit, System, run_one,
  run_two, Reach, here, later,
}

-- 0, 1, 0, 1, …, the last of `n` first
abbrev pub alternating : ℕ → List ℕ
alternating zero = []
alternating (suc n) = n % 2 ∷ alternating n

-- A thread that has counted and not yet flipped.
abbrev pub behind : Pc → ℕ
behind counted = 1
behind _ = 0

pub record Inv (m : Shared) (p q : Pc) : Type 0 where
  pub count : m.atomic_v ≡ m.incs % 2 ^ 32
  pub flips : m.incs ≡ length m.returned + behind p + behind q
  pub bit : m.bit_check ≡ 2 * (length m.returned % 2)
  pub values : m.returned ≡ alternating (length m.returned)

Move-Inv : {m m' : Shared} {p p' : Pc} (q : Pc) → Move m p m' p' → Inv m p q → Inv m' p' q
Move-Inv q stop v = ground arith
Move-Inv q atomic_inc v = ground arith
Move-Inv {m} q test_and_change_bit v = record {
  count = v.count;
  flips = ground arith;
  bit = ground arith;
  values =
      let even : bit_one m.bit_check ≡ length m.returned % 2 = omega (arith, v.bit) in
      ap₂ (λ b bs. b ∷ bs) even v.values;
}

Inv-swap : {m : Shared} {p q : Pc} → Inv m p q → Inv m q p
Inv-swap {p} {q} v = record {
  count = v.count;
  flips = omega (arith, v.flips);
  bit = v.bit;
  values = v.values;
}

Reach-Inv : {s : System} → Reach s → Inv s.mem s.pc_one s.pc_two
Reach-Inv here = record { count = refl; flips = refl; bit = refl; values = refl }
Reach-Inv (later {s} r (run_one m)) = Move-Inv s.pc_two m (Reach-Inv r)
Reach-Inv (later {s} r (run_two m)) = Inv-swap (Move-Inv s.pc_one m (Inv-swap (Reach-Inv r)))

-- In every state that the two threads reach, in whatever order they run: the counter is the number of
-- increments, modulo 2^32, so that none is lost without a lock; each increment but those of threads on
-- the way was followed by one flip; and the flips have returned 0, 1, 0, 1 and so on to the threads
-- together, while the word holds the bit that comes next and no other.
pub atomic_counts :
    {s : System}
    → Reach s
    → (s.mem.atomic_v ≡ s.mem.incs % 2 ^ 32)
      × (s.mem.incs ≡ length s.mem.returned + behind s.pc_one + behind s.pc_two)
      × (s.mem.returned ≡ alternating (length s.mem.returned))
      × (s.mem.bit_check ≡ 2 * (length s.mem.returned % 2))
atomic_counts r = let v = Reach-Inv r in (v.count, v.flips, v.values, v.bit)
