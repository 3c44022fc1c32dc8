-- ===== src/Chardev/Concurrent/Reading.antt =====
-- A read that nothing overlaps: its single accesses come to what the function my_read of `Chardev` gives.
use kernel_driver_lab.Prelude.{
  ℕ, zero, suc, ◌+◌, ◌≡◌, refl, subst, ◌∙◌, ap, pos, leb, if◌then◌else◌, some, List, [], ◌∷◌, ◌++◌,
  length, get_elem?, take, arith, Bool-cases, inl, inr, length-take,
}
use kernel_driver_lab.Chardev.{buff_size, strlen}
use kernel_driver_lab.Chardev.Text.{set_same, strlen_stop}
use kernel_driver_lab.Chardev.Concurrent.{
  Pc, measured, copying, returned, at_end, hand_byte, handed_out, System, enter_read, run, Reach,
  later,
}
use kernel_driver_lab.Chardev.Concurrent.Inside.{terminate_again_in}
use kernel_driver_lab.Chardev.Concurrent.Truncated.{Reach-measured, strlen_before}

abbrev pub at : ℕ → List Pc → List ℕ → Pc → System
at limit calls b p = record { buffer = b; calls = p ∷ calls }

take_next :
    (b : List ℕ) (i : ℕ) {x : ℕ} → get_elem? b i ≡ some x → take i b ++ (x ∷ []) ≡ take (suc i) b
take_next [] i h = cc
take_next (y ∷ b) zero h = ground arith
take_next (y ∷ b) (suc i) h = ap (λ t. y ∷ t) (take_next b i h)

-- copy_to_user of a text of `n` bytes, from the byte `i` on with `m` bytes to go
handing_out :
    (limit : ℕ) (calls : List Pc) (b : List ℕ) (n m i : ℕ)
    → strlen b ≡ some n
    → i + m ≡ n
    → Reach limit (at limit calls b (copying n (take i b)))
    → Reach limit (at limit calls b (returned (pos n) (take n b)))
handing_out limit calls b n zero i h e r =
    let all : i ≡ n = omega arith in
    let size : length (take i b) ≡ n = omega (arith, length-take i b, (strlen_stop b h).1) in
    subst (λ j. Reach limit (at limit calls b (returned (pos n) (take j b)))) all
      (later r (run [] calls refl (handed_out size)))
handing_out limit calls b n (suc m) i h e r =
    let (x, there, nonzero) = strlen_before b i h (omega arith) in
    let size : length (take i b) ≡ i = omega (arith, length-take i b, (strlen_stop b h).1) in
    handing_out limit calls b n m (suc i) h (omega arith) (
      subst (λ t. Reach limit (at limit calls b (copying n t))) (take_next b i there)
        (later r (run [] calls refl (hand_byte (omega arith) (ap (get_elem? b) size ∙ there)))))

-- A read that nothing overlaps: on a buffer with a text of `n` bytes, its accesses leave the buffer as it
-- is; at or past the end of the text it returns 0, and else it can hand out the whole text and return
-- its length, which is what the function `my_read` of `Chardev` gives when everything is copied.
pub read_alone :
    (calls : List Pc) (b : List ℕ) (offset : ℕ) {n : ℕ}
    → strlen b ≡ some n
    → Reach buff_size (record { buffer = b; calls = calls })
    → Reach buff_size (record {
      buffer = b;
      calls = (if leb n offset then returned (pos 0) [] else returned (pos n) (take n b)) ∷ calls;
    })
read_alone calls b offset {n} h r =
    let ready : Reach buff_size (at buff_size calls b (measured n offset)) =
      Reach-measured buff_size n 0 offset n b calls h (omega arith) (later r (enter_read offset)) in
    elim (Bool-cases (leb n offset)) [
      | inl past ↦ rw past (later ready (run [] calls refl (at_end (ground arith))))
      | inr ahead ↦
          let cut : Reach buff_size (at buff_size calls b (copying n [])) =
            subst (λ t. Reach buff_size (at buff_size calls t (copying n [])))
              (set_same b n 0 (strlen_stop b h).0)
              (later ready (
                run [] calls refl
                  (terminate_again_in b (ground arith) (omega (arith, (strlen_stop b h).1))))) in
          rw ahead (handing_out buff_size calls b n n 0 h (omega arith) cut)
    ]
