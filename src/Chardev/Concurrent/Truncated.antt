-- ===== src/Chardev/Concurrent/Truncated.antt =====
-- A read puts a 0 where the text ended when it was measured. When a longer message has been written in
-- between, the 0 cuts it.
use kernel_driver_lab.Prelude.{
  ℕ, zero, suc, ◌+◌, ◌≤◌, ◌<◌, ◌≡◌, ◌≢◌, refl, sym, subst, ◌∙◌, ap, pos, some, List, [], ◌∷◌, ◌++◌,
  length, get_elem?, set, drop, take, arith, length-drop, length-replicate, length-append,
  length-set,
}
use mathlib.Core.List.{append-nil}
use kernel_driver_lab.Chardev.{buff_size, device_buffer, safe_len, strlen}
use kernel_driver_lab.Chardev.Text.{
  AllNonzero, strlen_stop, strlen-set, strlen-tail, take_append, take-take_append, AllNonzero-take,
}
use kernel_driver_lab.Chardev.Concurrent.{
  Pc, ending, measuring, measured, copying, returned, look, find, begin_write, enter_read, run,
  Reach, here, later,
}
use kernel_driver_lab.Chardev.Concurrent.Inside.{terminate_in, terminate_again_in}
use kernel_driver_lab.Chardev.Concurrent.Overrun.{write_from, write_from-append, Reach-stored}

-- The buffer after a write that nothing overlaps
abbrev overwritten : List ℕ → List ℕ → List ℕ
overwritten b message = set (write_from b 0 message) (safe_len (length message)) 0

Reach-written :
    (limit : ℕ) (b message : List ℕ) (calls : List Pc)
    → length message ≤ limit
    → length b ≡ buff_size
    → length message ≤ buff_size
    → Reach limit (record { buffer = b; calls = calls })
    → Reach limit (record {
      buffer = overwritten b message;
      calls = returned (pos (length message)) [] ∷ calls;
    })
Reach-written limit b message calls small size fits r =
    let ready : Reach limit
        (record { buffer = write_from b 0 message; calls = ending (length message) ∷ calls }) =
      subst
        (λ n. Reach limit (record { buffer = write_from b 0 message; calls = ending n ∷ calls }))
        (omega arith)
        (Reach-stored limit b 0 message calls (omega (arith, size))
          (later r (begin_write message small))) in
    let stored : length (write_from b 0 message) ≡ buff_size =
      ap length (write_from-append b message (omega (arith, size)))
      ∙ omega (
        arith,
        length-append message (drop (length message) b),
        length-drop (length message) b,
        size,
      ) in
    later ready (run [] calls refl (terminate_in (write_from b 0 message) (ground (arith, stored))))

overwritten_text :
    (b message : List ℕ)
    → length b ≡ buff_size
    → length message < buff_size
    → AllNonzero message
    → (length (overwritten b message) ≡ buff_size)
      × (strlen (overwritten b message) ≡ some (length message))
      × (take (length message) (overwritten b message) ≡ message)
overwritten_text b message size small h =
    let n = length message in
    let copied : write_from b 0 message ≡ message ++ drop n b =
      write_from-append b message (omega (arith, size)) in
    let front : take n (write_from b 0 message) ≡ message =
      ap (take n) copied ∙ take_append message (drop n b) in
    let stored : length (write_from b 0 message) ≡ buff_size =
      ap length copied ∙ omega (arith, length-append message (drop n b), length-drop n b, size) in
    let at : safe_len n ≡ n = ground arith in
    let ended = strlen-set (write_from b 0 message) n (omega (arith, stored)) (rw front h) in
    rw at (length-set (write_from b 0 message) n 0 ∙ stored, ended.0, ended.1 ∙ front)

pub strlen_before :
    (b : List ℕ) {n : ℕ} (i : ℕ)
    → strlen b ≡ some n
    → i < n
    → (x : ℕ) × (get_elem? b i ≡ some x) × (x ≢ 0)
strlen_before [] i h before = absurd (ground arith)
strlen_before (x ∷ b) {n = zero} i h before = absurd (omega arith)
strlen_before (x ∷ b) {n = suc n} zero h before = (x, refl, (strlen-tail x b h).0)
strlen_before (x ∷ b) {n = suc n} (suc i) h before =
    strlen_before b i (strlen-tail x b h).1 (omega arith)

-- The first call measures the text of `n` bytes, from `i` with `k` bytes to go.
pub Reach-measured :
    (limit k i offset n : ℕ) (b : List ℕ) (calls : List Pc)
    → strlen b ≡ some n
    → i + k ≡ n
    → Reach limit (record { buffer = b; calls = measuring i offset ∷ calls })
    → Reach limit (record { buffer = b; calls = measured n offset ∷ calls })
Reach-measured limit zero i offset n b calls h at r =
    let same : i ≡ n = omega arith in
    later
      (subst (λ j. Reach limit (record { buffer = b; calls = measuring j offset ∷ calls })) same r)
      (run [] calls refl (find (strlen_stop b h).0))
Reach-measured limit (suc k) i offset n b calls h at r =
    let (x, there, nonzero) = strlen_before b i h (omega arith) in
    Reach-measured limit k (suc i) offset n b calls h (omega arith)
      (later r (run [] calls refl (look there nonzero)))

-- The text of a buffer that a shorter text's terminator has cut
cut_text :
    (b message : List ℕ) (m : ℕ)
    → m < length message
    → length b ≡ buff_size
    → length message < buff_size
    → AllNonzero message
    → take (length message) b ≡ message
    → (strlen (set b m 0) ≡ some m) × (take m (set b m 0) ≡ take m message)
cut_text b message m shorter size small h front =
    let n = length message in
    let same : take m b ≡ take m message =
      sym (take-take_append m n b [] (omega arith) (omega (arith, size)))
      ∙ ap (take m) (append-nil (take n b) ∙ front) in
    let all : take n message ≡ message =
      sym (ap (take n) (append-nil message)) ∙ take_append message [] in
    let ended =
      strlen-set b m (omega (arith, size))
        (rw same (AllNonzero-take m n message (omega arith) (rw all h))) in
    (ended.0, ended.1 ∙ same)

-- For every two messages without a 0, of at most 1023 bytes and the second one longer: the first is
-- written, a read measures it, the second is written whole, and its write returns its full length; then
-- the read, which is still running, puts its 0, and the buffer holds but as many bytes of the second
-- message as the first one had.
pub overlapping_cuts :
    (first second : List ℕ)
    → AllNonzero first
    → AllNonzero second
    → 0 < length first
    → length first < length second
    → length second < buff_size
    → (b : List ℕ) × Reach buff_size (record {
      buffer = b;
      calls =
          returned (pos (length second)) []
          ∷ copying (length first) []
          ∷ returned (pos (length first)) []
          ∷ [];
    })
      × (strlen b ≡ some (length first))
      × (take (length first) b ≡ take (length first) second)
unfolding device_buffer
overlapping_cuts first second h1 h2 positive shorter small =
    let m = length first in
    let b1 = overwritten device_buffer first in
    let (size1, text1, front1) =
      overwritten_text device_buffer first (length-replicate {A = ℕ} buff_size 0) (omega arith)
        h1 in
    let b2 = overwritten b1 second in
    let (size2, text2, front2) = overwritten_text b1 second size1 small h2 in
    let one =
      Reach-written buff_size device_buffer first [] (omega arith)
        (length-replicate {A = ℕ} buff_size 0) (omega arith) here in
    let two =
      Reach-measured buff_size m 0 0 m b1 (returned (pos m) [] ∷ []) text1 (omega arith)
        (later one (enter_read 0)) in
    let three =
      Reach-written buff_size b1 second (measured m 0 ∷ returned (pos m) [] ∷ []) (omega arith)
        size1 (omega arith) two in
    let (ends, front) = cut_text b2 second m shorter size2 small h2 front2 in
    (
      set b2 m 0,
      later three (
          run (returned (pos (length second)) [] ∷ []) (returned (pos m) [] ∷ []) refl
            (terminate_again_in b2 positive (omega (arith, size2)))),
      ends,
      front,
    )
