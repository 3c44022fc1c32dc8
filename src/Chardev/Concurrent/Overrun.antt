-- ===== src/Chardev/Concurrent/Overrun.antt =====
-- With messages of 1024 bytes, which the drivers accept, a read that overlaps a write leaves the
-- array: until the write puts its 0 there is none.
use kernel_driver_lab.Prelude.{
  ℕ, zero, suc, ◌+◌, ◌≤◌, ◌<◌, ◌≡◌, ◌≢◌, refl, subst, ◌∙◌, ap, true, some, List, [], ◌∷◌, ◌++◌,
  length, get_elem?, set, drop, arith, length-set, length-replicate,
}
use mathlib.Core.List.{append-nil}
use kernel_driver_lab.Chardev.{buff_size, device_buffer}
use kernel_driver_lab.Chardev.Text.{AllNonzero}
use kernel_driver_lab.Chardev.Concurrent.{
  Pc, storing, ending, measuring, overrun, stored, look, run_past, begin_write, enter_read, run,
  Reach, here, later,
}
use kernel_driver_lab.Chardev.Concurrent.Inside.{store_in}

-- The buffer after a copy of `bytes` to an index
abbrev pub write_from : List ℕ → ℕ → List ℕ → List ℕ
write_from b i [] = b
write_from b i (x ∷ rest) = write_from (set b i x) (suc i) rest

write_from-cons :
    (y : ℕ) (b : List ℕ) (i : ℕ) (bytes : List ℕ)
    → write_from (y ∷ b) (suc i) bytes ≡ y ∷ write_from b i bytes
write_from-cons y b i [] = refl
write_from-cons y b i (x ∷ rest) = write_from-cons y (set b i x) (suc i) rest

pub write_from-append :
    (b bytes : List ℕ)
    → length bytes ≤ length b
    → write_from b 0 bytes ≡ bytes ++ drop (length bytes) b
write_from-append b [] h = refl
write_from-append [] (x ∷ rest) h = absurd (omega arith)
write_from-append (y ∷ b) (x ∷ rest) h =
    write_from-cons x b 0 rest ∙ ap (λ t. x ∷ t) (write_from-append b rest (omega arith))

-- The first call copies all of its bytes.
pub Reach-stored :
    (limit : ℕ) (b : List ℕ) (i : ℕ) (bytes : List ℕ) (calls : List Pc)
    → i + length bytes ≤ length b
    → Reach limit (record { buffer = b; calls = storing bytes i true ∷ calls })
    → Reach limit
        (record { buffer = write_from b i bytes; calls = ending (i + length bytes) ∷ calls })
Reach-stored limit b i [] calls h r =
    subst (λ j. Reach limit (record { buffer = b; calls = ending j ∷ calls })) (omega arith)
      (later r (run [] calls refl stored))
Reach-stored limit b i (x ∷ rest) calls h r =
    subst
      (λ j. Reach limit (record { buffer = write_from b i (x ∷ rest); calls = ending j ∷ calls }))
      (omega arith)
      (Reach-stored limit (set b i x) (suc i) rest calls (omega (arith, length-set b i x))
        (later r (run [] calls refl (store_in b (omega arith)))))

nonzero_at :
    (b : List ℕ) (i : ℕ)
    → AllNonzero b
    → i < length b
    → (x : ℕ) × (get_elem? b i ≡ some x) × (x ≢ 0)
nonzero_at [] i h inside = absurd (omega arith)
nonzero_at (x ∷ b) zero h inside = (x, refl, h.0)
nonzero_at (x ∷ b) (suc i) h inside = nonzero_at b i h.1 (omega arith)

-- The first call measures a buffer without a 0, from `i` with `k` bytes to go.
Reach-overrun :
    (limit k i offset : ℕ) (b : List ℕ) (calls : List Pc)
    → AllNonzero b
    → i + k ≡ length b
    → Reach limit (record { buffer = b; calls = measuring i offset ∷ calls })
    → Reach limit (record { buffer = b; calls = overrun ∷ calls })
Reach-overrun limit zero i offset b calls h at r =
    later r (run [] calls refl (run_past (omega arith)))
Reach-overrun limit (suc k) i offset b calls h at r =
    let (x, there, nonzero) = nonzero_at b i h (omega arith) in
    Reach-overrun limit k (suc i) offset b calls h (omega arith)
      (later r (run [] calls refl (look there nonzero)))

drop_all : (b : List ℕ) (n : ℕ) → length b ≤ n → drop n b ≡ []
drop_all [] zero h = refl
drop_all [] (suc n) h = refl
drop_all (x ∷ b) zero h = absurd (omega arith)
drop_all (x ∷ b) (suc n) h = drop_all b n (omega arith)

-- For every message of 1024 bytes without a 0, which my_write takes whole, and every offset: after the
-- last byte of the message is stored and before the 0 behind it, a read of the file that begins then
-- finds no 0, and its strlen leaves the array.
pub overlapping_overruns :
    (message : List ℕ) (offset : ℕ)
    → length message ≡ buff_size
    → AllNonzero message
    → Reach buff_size (record { buffer = message; calls = overrun ∷ ending buff_size ∷ [] })
unfolding device_buffer
overlapping_overruns message offset size h =
    let size_before : length device_buffer ≡ buff_size = length-replicate {A = ℕ} buff_size 0 in
    let copied : write_from device_buffer 0 message ≡ message =
      write_from-append device_buffer message (omega arith)
      ∙ ap (λ t. message ++ t) (drop_all device_buffer (length message) (omega arith))
      ∙ append-nil message in
    let written : Reach buff_size (record { buffer = message; calls = ending buff_size ∷ [] }) =
      subst (λ b. Reach buff_size (record { buffer = b; calls = ending buff_size ∷ [] })) copied
        (subst
          (λ n.
            Reach buff_size
              (record { buffer = write_from device_buffer 0 message; calls = ending n ∷ [] }))
          (omega arith)
          (Reach-stored buff_size device_buffer 0 message [] (omega arith)
            (later here (begin_write message (omega arith))))) in
    Reach-overrun buff_size buff_size 0 offset message (ending buff_size ∷ []) h (omega arith)
      (later written (enter_read offset))
