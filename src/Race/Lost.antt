-- ===== src/Race/Lost.antt =====
-- What the missing lock costs: any number of increments of one thread can be lost.
use kernel_driver_lab.Prelude.{ℕ, zero, suc, ◌+◌, ◌%◌, ◌^◌, ◌≤◌, ◌<◌, ◌≡◌, refl, subst, arith}
use kernel_driver_lab.Race.{
  Pc, looping, loaded, System, Step, load_first, store_first, load_second, store_second, Reach,
  here, later,
}

-- The second thread has read 0 and waits, while the first one counts.
abbrev pub delayed : ℕ → ℕ → System
delayed n count = record {
  read_count = count;
  pc_first = looping;
  pc_second = loaded 0;
  done_first = n;
  done_second = 0;
}

Reach-delayed : (n : ℕ) → n < 2 ^ 32 → Reach (delayed n n)
Reach-delayed zero h = later here (load_second refl)
Reach-delayed (suc n) h =
    let e : (n + 1) % 2 ^ 32 ≡ suc n = omega arith in
    subst (λ c. Reach (delayed (suc n) c)) e
      (later (later (Reach-delayed n (omega arith)) (load_first refl)) (store_first n refl))

-- For every number below 2^32 there is a schedule in which the first thread stores that many
-- increments and the second one a single increment, and the counter is 1 at the end.
pub increments_lost :
    (n : ℕ)
    → n < 2 ^ 32
    → (s : System) × Reach s × (s.done_first ≡ n) × (s.done_second ≡ 1) × (s.read_count ≡ 1)
increments_lost n h = (_, later (Reach-delayed n h) (store_second 0 refl), refl, refl, refl)

-- No schedule counts too much: the counter is never above the number of increments stored.
abbrev pub Bounded : ℕ → Pc → Type 0
Bounded n looping = Unit
Bounded n (loaded v) = v ≤ n

pub record Below (s : System) : Type 0 where
  pub total : s.read_count ≤ s.done_first + s.done_second
  pub first : Bounded (s.done_first + s.done_second) s.pc_first
  pub second : Bounded (s.done_first + s.done_second) s.pc_second

pub Step-Below : {s t : System} → Step s t → Below s → Below t
Step-Below {s} (load_first e) v = ground arith
Step-Below {s} (store_first n e) v = ground arith
Step-Below {s} (load_second e) v = ground arith
Step-Below {s} (store_second n e) v = ground arith

-- In every state that is reached, the counter is at most the number of increments stored.
pub count_bounded : {s : System} → Reach s → s.read_count ≤ s.done_first + s.done_second
count_bounded r = (all r).total
  where
    all : {s : System} → Reach s → Below s
    all here = record { total = omega arith; first = tt; second = tt }
    all (later r st) = Step-Below st (all r)
