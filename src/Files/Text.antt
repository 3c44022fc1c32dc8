-- ===== src/Files/Text.antt =====
-- The abstract device: a text, and what a write makes of it. The buffer holds the text up to its first
-- zero byte.
use kernel_driver_lab.Prelude.{
  ℕ, zero, suc, ◌-◌, ◌≤◌, ◌<◌, ◌≡◌, refl, ap, false, ◌∙◌, ◌==◌, if◌then◌else◌, some, List, [], ◌∷◌,
  ◌++◌, length, set, take, drop, replicate, min, arith, Bool-cases, inl, inr,
}
use kernel_driver_lab.Chardev
use kernel_driver_lab.Chardev.{buff_size, to_copy, safe_len, strlen}
use kernel_driver_lab.Chardev.Terminated.{IsTerminated, copied-length}
use kernel_driver_lab.Chardev.Text.{strlen-tail, take-take_append}
use kernel_driver_lab.Chardev.UserMemory.{Uaccess}

-- The bytes before the first zero
abbrev pub text_of : List ℕ → List ℕ
text_of [] = []
text_of (x ∷ xs) = if x == 0 then [] else x ∷ text_of xs

text_of-append_zero : (xs ys : List ℕ) → text_of (xs ++ 0 ∷ ys) ≡ text_of xs
text_of-append_zero [] ys = refl
text_of-append_zero (x ∷ xs) ys = ground (arith, text_of-append_zero xs ys)

text_of-set : (b : List ℕ) (i : ℕ) → i < length b → text_of (set b i 0) ≡ text_of (take i b)
text_of-set [] i h = absurd (omega arith)
text_of-set (x ∷ b) zero h = refl
text_of-set (x ∷ b) (suc i) h = ground (arith, text_of-set b i (omega arith))

-- The text is what `strlen` measures and the reads hand out.
pub strlen-text :
    (b : List ℕ) {n : ℕ} → strlen b ≡ some n → (length (text_of b) ≡ n) × (take n b ≡ text_of b)
strlen-text [] h = absurd (ground arith)
strlen-text (x ∷ b) {n = zero} h = (ground arith, ground arith)
strlen-text (x ∷ b) {n = suc m} h =
    let (head, tail) = strlen-tail x b h in
    let (size, same) = strlen-text b tail in
    (ground (arith, size), ground (arith, ap (λ t. x ∷ t) same))

-- The text after a write that leaves `left` bytes uncopied
abbrev pub written_text : List ℕ → ℕ → ℕ → List ℕ
written_text buf len left = text_of (take (min (to_copy len - left) (buff_size - 1)) buf)

-- What is left of a message that was cut short ends at the first byte that was not copied.
text_of-short :
    (buf b : List ℕ) (n left : ℕ)
    → (left == 0) ≡ false
    → text_of (take (n - left) buf ++ (replicate left 0 ++ drop n b))
      ≡ text_of (take (n - left) buf)
text_of-short buf b n zero h = absurd (ground arith)
text_of-short buf b n (suc left) h =
    text_of-append_zero (take (n - suc left) buf) (replicate left 0 ++ drop n b)

-- The text in the buffer after a write is that of the first bytes of the message, as many as could be
-- copied and at most 1023.
pub write-text :
    (k : Uaccess) (b buf : List ℕ) (len : ℕ)
    → IsTerminated b
    → text_of (Chardev.my_write k b buf len).1
      ≡ written_text buf len (k.copy_from_user b buf (to_copy len)).0
unfolding Chardev.my_write
write-text k b buf len v = elim (Bool-cases (left == 0)) [
  | inl whole ↦
      let i : ℕ = safe_len n in
      let none_left : left ≡ 0 = ground arith in
      let at : min (n - left) (buff_size - 1) ≡ i = ground (arith, none_left) in
      let same : take i copied ≡ take i buf = rw (k.from_copied b buf n fits) (
        take-take_append i (n - left) buf (replicate left 0 ++ drop n b) (ground (arith, none_left))
          (ground (arith, none_left, k.from_readable b buf n))) in
      rw (whole, at)
        (text_of-set copied i (ground (arith, copied-length k b buf n fits, v.size))
          ∙ ap text_of same)
  | inr short ↦
      let at : min (n - left) (buff_size - 1) ≡ n - left = ground arith in
      rw (short, at) (rw (k.from_copied b buf n fits) (text_of-short buf b n left short))
]
  where
    n : ℕ
    n = to_copy len

    left : ℕ
    left = (k.copy_from_user b buf n).0

    copied : List ℕ
    copied = (k.copy_from_user b buf n).1

    fits : n ≤ length b
    fits = ground (arith, v.size)
