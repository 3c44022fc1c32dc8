-- ===== src/Spinlock/Progress.antt =====
-- A thread that waits for the spinlock can have it: the other one is a few steps from releasing it.
use kernel_driver_lab.Prelude.{
  ℕ, suc, ◌≤◌, ◌≡◌, refl, sym, subst, true, false, arith, Bool-cases, inl, inr,
}
use kernel_driver_lab.Spinlock.{
  Shared, Pc, looping, peeking, waiting, entered, loaded, stored, checked, stopped, lock, load,
  store, check, unlock_one, critical, System, Step, run_one, run_two, Reach,
}
use kernel_driver_lab.Spinlock.Exclusion.{Reach-Inv}

-- As many steps as the number
pub data Runs (s : System) : ℕ → System → Type 0 where
  none_yet : Runs s 0 s
  more : {n : ℕ} {t u : System} → Runs s n t → Step t u → Runs s (suc n) u

abbrev system : Shared → Pc → Pc → System
system m p q = record { mem = m; pc_one = p; pc_two = q }

-- A state with the lock free and the other thread at the test of its loop
record Released (s : System) (m : Shared → System) : Type 0 where
  mem : Shared
  steps : ℕ
  few : steps ≤ 4
  runs : Runs s steps (m mem)
  free : mem.locked ≡ false

one_releases :
    (m : Shared) (p q : Pc) → critical p ≡ true → Released (system m p q) (λ m. system m looping q)
one_releases m looping q e = cc
one_releases m peeking q e = cc
one_releases m waiting q e = cc
one_releases m stopped q e = cc
one_releases m entered q e = record {
  mem = _;
  steps = 4;
  few = omega arith;
  runs =
      more (more (more (more none_yet (run_one load)) (run_one store)) (run_one check))
        (run_one unlock_one);
  free = refl;
}
one_releases m (loaded v) q e = record {
  mem = _;
  steps = 3;
  few = omega arith;
  runs = more (more (more none_yet (run_one store)) (run_one check)) (run_one unlock_one);
  free = refl;
}
one_releases m stored q e = record {
  mem = _;
  steps = 2;
  few = omega arith;
  runs = more (more none_yet (run_one check)) (run_one unlock_one);
  free = refl;
}
one_releases m checked q e = record {
  mem = _;
  steps = 1;
  few = omega arith;
  runs = more none_yet (run_one unlock_one);
  free = refl;
}

two_locks :
    (m : Shared) (p q : Pc)
    → q ≡ waiting
    → m.locked ≡ false
    → Step (system m p q) (system (record m { locked = true }) p entered)
two_locks m p q at free =
    subst (λ q. Step (system m p q) (system (record m { locked = true }) p entered)) (sym at)
      (run_two (lock free))

-- From every state that the two threads reach in which thread two waits for the lock, at most five steps
-- lead to one in which it has it, whatever thread one was doing.
pub spinlock_granted :
    {s : System}
    → Reach s
    → s.pc_two ≡ waiting
    → (n : ℕ) × (t : System) × (n ≤ 5) × Runs s n t × (t.pc_two ≡ entered)
spinlock_granted {s} r at = elim (Bool-cases s.mem.locked) [
  | inl taken ↦
      let v = Reach-Inv r in
      let inside : critical s.pc_one ≡ true = ground (arith, v.held) in
      let way = one_releases s.mem s.pc_one s.pc_two inside in
      (
        suc way.steps,
        system (record way.mem { locked = true }) looping entered,
        omega (arith, way.few),
        more way.runs (two_locks way.mem looping s.pc_two at way.free),
        refl,
      )
  | inr free ↦ (
    1,
    system (record s.mem { locked = true }) s.pc_one entered,
    omega arith,
    more none_yet (two_locks s.mem s.pc_one s.pc_two at free),
    refl,
  )
]
