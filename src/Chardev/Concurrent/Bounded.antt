-- ===== src/Chardev/Concurrent/Bounded.antt =====
-- As long as no writer passes more than 1023 bytes, the last byte of the buffer stays 0 on every order
-- of the accesses, so that strlen always stops.
use kernel_driver_lab.Prelude.{
  ℕ, suc, ◌+◌, ◌≤◌, ◌≡◌, refl, sym, subst, ◌∙◌, ap, some, List, [], ◌∷◌, ◌++◌, length, get_elem?,
  set, replicate, arith, ℕ_discrete, length-append, length-replicate, length-set,
  get_elem?-set_self, get_elem?-set_ne,
}
use kernel_driver_lab.Chardev.{buff_size, device_buffer}
use kernel_driver_lab.Chardev.Concurrent.{
  Pc, storing, ending, measuring, measured, copying, returned, overrun, Move, store, stored,
  cut_short, terminate, look, find, run_past, at_end, terminate_again, hand_byte, handed_out,
  hand_past, refuse, System, Step, begin_write, begin_short, enter_read, run, Reach, here, later,
}
use kernel_driver_lab.Chardev.Concurrent.Inside.{inside_in}

-- No access of the call will leave the buffer or reach its last byte with anything but 0.
abbrev pub IsBounded : Pc → Type 0
IsBounded (storing rest i whole) = i + length rest ≤ 1023
IsBounded (ending n) = Unit
IsBounded (measuring i offset) = i ≤ 1023
IsBounded (measured n offset) = n ≤ 1023
IsBounded (copying n out) = (n ≤ 1023) × (length out ≤ n)
IsBounded (returned r out) = length out ≤ 1023
IsBounded overrun = ⊥

abbrev pub All : (Pc → Type 0) → List Pc → Type 0
All P [] = Unit
All P (p ∷ ps) = P p × All P ps

module _ (P : Pc → Type 0) (p : Pc) (ys : List Pc) where
  All-pick : (xs : List Pc) → All P (xs ++ (p ∷ ys)) → P p
  All-pick [] h = h.0
  All-pick (x ∷ xs) h = All-pick xs h.1

  All-replace : (q : Pc) (xs : List Pc) → P q → All P (xs ++ (p ∷ ys)) → All P (xs ++ (q ∷ ys))
  All-replace q [] k h = (k, h.1)
  All-replace q (x ∷ xs) k h = (h.0, All-replace q xs k h.1)

pub record BufferEnds (b : List ℕ) : Type 0 where
  pub size : length b ≡ buff_size
  pub last : get_elem? b 1023 ≡ some 0

set-BufferEnds : (b : List ℕ) (i x : ℕ) → (i ≡ 1023 → x ≡ 0) → BufferEnds b → BufferEnds (set b i x)
set-BufferEnds b i x h e = record {
  size = length-set b i x ∙ e.size;
  last = elim (ℕ_discrete i 1023) [
    | yes at ↦ rw (h at) (
        subst (λ j. get_elem? (set b i 0) j ≡ some 0) at
          (get_elem?-set_self b i 0 (omega (arith, e.size))))
    | no other ↦ get_elem?-set_ne b x other ∙ e.last
  ];
}

Move-BufferEnds :
    {b b' : List ℕ} {p p' : Pc}
    → Move b p b' p'
    → BufferEnds b
    → IsBounded p
    → BufferEnds b' × IsBounded p'
Move-BufferEnds {b} (store {x} {i}) e h = (
  set-BufferEnds b i x (λ at. absurd (omega arith)) e,
  subst IsBounded (sym (inside_in b i _ (omega (arith, e.size)))) (omega arith),
)
Move-BufferEnds stored e h = (e, tt)
Move-BufferEnds cut_short e h = (e, omega arith)
Move-BufferEnds {b} (terminate {n} {i} at) e h = (
  set-BufferEnds b i 0 (λ end. refl) e,
  subst IsBounded (sym (inside_in b i _ (ground (arith, e.size)))) (omega arith),
)
Move-BufferEnds {b} (look {x} {i} at nonzero) e h = (
  e,
  elim (ℕ_discrete i 1023) [
    | yes end ↦
        let same : some x ≡ some 0 = sym at ∙ ap (get_elem? b) end ∙ e.last in absurd (nonzero (cc))
    | no other ↦ omega arith
  ],
)
Move-BufferEnds (find at) e h = (e, h)
Move-BufferEnds (run_past past) e h = absurd (omega (arith, e.size))
Move-BufferEnds (at_end past) e h = (e, omega arith)
Move-BufferEnds {b} (terminate_again {n} before) e h = (
  set-BufferEnds b n 0 (λ at. refl) e,
  subst IsBounded (sym (inside_in b n _ (omega (arith, e.size)))) (h, omega arith),
)
Move-BufferEnds (hand_byte {x} {n} {out} before at) e h =
    (e, (h.0, omega (arith, length-append out (x ∷ []))))
Move-BufferEnds (handed_out all) e h = (e, omega arith)
Move-BufferEnds (hand_past before past) e h = absurd (omega (arith, e.size))
Move-BufferEnds (refuse) e h = (e, omega arith)

pub record IsSafe (s : System) : Type 0 where
  pub ends : BufferEnds s.buffer
  pub bounded : All IsBounded s.calls

Step-IsSafe : {s t : System} (limit : ℕ) → limit ≤ 1023 → Step limit s t → IsSafe s → IsSafe t
Step-IsSafe limit small (begin_write message h) v = record {
  ends = v.ends;
  bounded = (omega arith, v.bounded);
}
Step-IsSafe limit small (begin_short message left h) v = record {
  ends = v.ends;
  bounded = (
    omega (
      arith,
      length-append message (replicate (suc left) 0),
      length-replicate {A = ℕ} (suc left) 0,
    ),
    v.bounded,
  );
}
Step-IsSafe limit small (enter_read offset) v = record {
  ends = v.ends;
  bounded = (omega arith, v.bounded);
}
Step-IsSafe limit small (run before after {p} {p'} at m) v =
    let all : All IsBounded (before ++ (p ∷ after)) = subst (All IsBounded) at v.bounded in
    let (ends, bounded) = Move-BufferEnds m v.ends (All-pick IsBounded p after before all) in
    record { ends = ends; bounded = All-replace IsBounded p after p' before bounded all }

device_buffer-BufferEnds : BufferEnds device_buffer
unfolding device_buffer
device_buffer-BufferEnds = record { size = length-replicate {A = ℕ} buff_size 0; last = refl }

-- With any number of calls at a time, the accesses to single bytes in any order and copies that fail
-- anywhere, as long as no writer passes more than 1023 bytes: the buffer keeps its size and a 0 in its
-- last byte, no call ever stores to, measures or hands out a byte outside it, and no read hands out more
-- than 1023 bytes.
pub overlapping-IsSafe : (limit : ℕ) {s : System} → limit ≤ 1023 → Reach limit s → IsSafe s
overlapping-IsSafe limit small here = record { ends = device_buffer-BufferEnds; bounded = tt }
overlapping-IsSafe limit small (later r st) =
    Step-IsSafe limit small st (overlapping-IsSafe limit small r)
