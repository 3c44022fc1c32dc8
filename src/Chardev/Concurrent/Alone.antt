-- ===== src/Chardev/Concurrent/Alone.antt =====
-- A write that nothing overlaps: its single accesses come to what the function my_write of `Chardev`
-- gives.
use kernel_driver_lab.Prelude.{
  ℕ, suc, ◌+◌, ◌-◌, ◌≤◌, ◌<◌, ◌≡◌, refl, sym, subst, ◌∙◌, ap, ap₂, ◌↔◌, ℤ, pos, efault, Bool, true,
  false, ◌==◌, if◌then◌else◌, List, [], ◌∷◌, ◌++◌, length, set, drop, take, replicate, arith,
  Bool-cases, inl, inr, length-replicate, length-append, length-take, length-set, length-drop,
}
use mathlib.Core.List.{append_assoc}
use kernel_driver_lab.Chardev
use kernel_driver_lab.Chardev.{buff_size, to_copy, safe_len, strlen}
use kernel_driver_lab.Chardev.Terminated.{IsTerminated}
use kernel_driver_lab.Chardev.UserMemory.{Uaccess}
use kernel_driver_lab.Chardev.Concurrent.{
  Pc, Move, store, terminate, storing, returned, stored, cut_short,
}
use kernel_driver_lab.Chardev.Concurrent.Inside.{inside_in, store_in, terminate_in}
use kernel_driver_lab.Chardev.Concurrent.Overrun.{write_from, write_from-append}

-- The accesses of one call, with nothing in between
pub data Run : List ℕ → Pc → List ℕ → Pc → Type 0 where
  done : {b : List ℕ} {p : Pc} → Run b p b p
  more : {b b1 b2 : List ℕ} {p p1 p2 : Pc} → Move b p b1 p1 → Run b1 p1 b2 p2 → Run b p b2 p2

Run-returned :
    {b b' : List ℕ} {r r' : ℤ} {out out' : List ℕ}
    → Run b (returned r out) b' (returned r' out')
    → (b' ≡ b) × (r' ≡ r) × (out' ≡ out)
Run-returned done = (refl, refl, refl)
Run-returned (more m go) = elim m [ ]

module _ {b' : List ℕ} {r : ℤ} {out : List ℕ} where
  -- The bytes that are copied, from a call that does so and to one
  Run-copied :
      (b : List ℕ) (i : ℕ) (bytes : List ℕ) (whole : Bool)
      → i + length bytes ≤ length b
      → Run b (storing bytes i whole) b' (returned r out)
      → Run (write_from b i bytes) (storing [] (i + length bytes) whole) b' (returned r out)
  Run-copied b i [] whole h go =
      subst (λ j. Run b (storing [] j whole) b' (returned r out)) (omega arith) go
  Run-copied b i (x ∷ rest) whole h (more store go) =
      subst (λ j. Run (write_from b i (x ∷ rest)) (storing [] j whole) b' (returned r out))
        (omega arith)
        (Run-copied (set b i x) (suc i) rest whole (omega (arith, length-set b i x)) (
          subst (λ q. Run (set b i x) q b' (returned r out))
            (inside_in b i (storing rest (suc i) whole) (omega arith)) go))

  copied-Run :
      (b : List ℕ) (i : ℕ) (bytes : List ℕ) (whole : Bool)
      → i + length bytes ≤ length b
      → Run (write_from b i bytes) (storing [] (i + length bytes) whole) b' (returned r out)
      → Run b (storing bytes i whole) b' (returned r out)
  copied-Run b i [] whole h go =
      subst (λ j. Run b (storing [] j whole) b' (returned r out)) (omega arith) go
  copied-Run b i (x ∷ rest) whole h go = more (store_in b (omega arith)) (
      copied-Run (set b i x) (suc i) rest whole (omega (arith, length-set b i x)) (
        subst (λ j. Run (write_from b i (x ∷ rest)) (storing [] j whole) b' (returned r out))
          (omega arith) go))

  -- The end of a whole copy, and of one that is cut short
  Run-whole :
      (b : List ℕ) (n : ℕ)
      → safe_len n < length b
      → Run b (storing [] n true) b' (returned r out)
      → (b' ≡ set b (safe_len n) 0) × (r ≡ pos n) × (out ≡ [])
  Run-whole b n h (more stored (more (terminate {i = i} at) go)) =
      let (same, result, handed) = Run-returned (
        subst (λ q. Run (set b i 0) q b' (returned r out))
          (inside_in b i (returned (pos n) []) (omega (arith, at))) go) in
      (same ∙ ap (λ j. set b j 0) at, result, handed)

  Run-short :
      (b : List ℕ) (n : ℕ)
      → Run b (storing [] n false) b' (returned r out)
      → (b' ≡ b) × (r ≡ efault) × (out ≡ [])
  Run-short b n (more cut_short go) = Run-returned go

-- Where a call of my_write stands before its first access: what copy_from_user can read, and zeros for
-- the rest
abbrev pub first_pc : Uaccess → List ℕ → List ℕ → ℕ → Pc
first_pc k b buf len =
    let n = to_copy len in
    let left = (k.copy_from_user b buf n).0 in
    if left == 0
    then storing (take n buf) 0 true
    else storing (take (n - left) buf ++ replicate left 0) 0 false

from_start : (bytes : List ℕ) → 0 + length bytes ≡ length bytes
from_start bytes = omega arith

-- What a call comes to: its result, the buffer after it, and no byte handed out
abbrev Ends : List ℕ → Pc → List ℕ → ℤ → List ℕ → ℤ × List ℕ → Type 0
Ends b p b' r out answer = Run b p b' (returned r out) ↔ (((r, b') ≡ answer) × (out ≡ []))

module _ (b bytes : List ℕ) {b' : List ℕ} {r : ℤ} {out : List ℕ}
    (fits : length bytes ≤ length b) where
  whole_ends :
      safe_len (length bytes) < length b
      → Ends b
          (storing bytes 0 true)
          b'
          r
          out
          (pos (length bytes), set (bytes ++ drop (length bytes) b) (safe_len (length bytes)) 0)
  whole_ends inside = (
    λ go.
        let (same, result, handed) =
          Run-whole (write_from b 0 bytes) (length bytes) (omega (arith, kept)) (
            subst (λ j. Run (write_from b 0 bytes) (storing [] j true) b' (returned r out))
              (from_start bytes) (Run-copied b 0 bytes true (omega arith) go)) in
        (ap₂ (λ x y. (x, y)) result (same ∙ ap (λ t. set t i 0) copied), handed),
    λ e.
        subst (λ o. Run b (storing bytes 0 true) b' (returned r o)) (sym e.1)
          (subst (λ t. Run b (storing bytes 0 true) t.1 (returned t.0 [])) (sym e.0)
            (subst
              (λ t. Run b (storing bytes 0 true) (set t i 0) (returned (pos (length bytes)) []))
              copied
              (copied-Run b 0 bytes true (omega arith) (
                subst
                  (λ j.
                    Run (write_from b 0 bytes) (storing [] j true) (set (write_from b 0 bytes) i 0)
                      (returned (pos (length bytes)) []))
                  (sym (from_start bytes))
                  (more stored
                    (more (terminate_in (write_from b 0 bytes) (omega (arith, kept))) done)))))),
  )
    where
      i : ℕ
      i = safe_len (length bytes)

      copied : write_from b 0 bytes ≡ bytes ++ drop (length bytes) b
      copied = write_from-append b bytes fits

      kept : length (write_from b 0 bytes) ≡ length b
      kept =
          ap length copied
          ∙ omega (arith, length-append bytes (drop (length bytes) b), length-drop (length bytes) b)

  short_ends : Ends b (storing bytes 0 false) b' r out (efault, bytes ++ drop (length bytes) b)
  short_ends = (
    λ go.
        let (same, result, handed) = Run-short (write_from b 0 bytes) (length bytes) (
          subst (λ j. Run (write_from b 0 bytes) (storing [] j false) b' (returned r out))
            (from_start bytes) (Run-copied b 0 bytes false (omega arith) go)) in
        (ap₂ (λ x y. (x, y)) result (same ∙ write_from-append b bytes fits), handed),
    λ e.
        subst (λ o. Run b (storing bytes 0 false) b' (returned r o)) (sym e.1)
          (subst (λ t. Run b (storing bytes 0 false) t.1 (returned t.0 [])) (sym e.0)
            (subst (λ t. Run b (storing bytes 0 false) t (returned efault []))
              (write_from-append b bytes fits)
              (copied-Run b 0 bytes false (omega arith) (
                subst
                  (λ j.
                    Run (write_from b 0 bytes) (storing [] j false) (write_from b 0 bytes)
                      (returned efault []))
                  (sym (from_start bytes)) (more cut_short done))))),
  )

-- A write that nothing overlaps, on a buffer that ends in 0 as the drivers keep it, whatever could be
-- copied: the accesses of the call can bring it to an end with some result and buffer exactly if these
-- are what the function `my_write` of `Chardev` gives, and no byte is handed out.
pub write_alone :
    (k : Uaccess) (b buf : List ℕ) (len : ℕ) {b' : List ℕ} {r : ℤ} {out : List ℕ}
    → IsTerminated b
    → Run b (first_pc k b buf len) b' (returned r out)
      ↔ (((r, b') ≡ Chardev.my_write k b buf len) × (out ≡ []))
unfolding Chardev.my_write
write_alone k b buf len {b'} {r} {out} v = elim (Bool-cases (left == 0)) [
  | inl whole ↦
      let none_left : left ≡ 0 = ground arith in
      let size : length (take n buf) ≡ n =
        omega (arith, length-take n buf, none_left, k.from_readable b buf n) in
      let same : copied ≡ take n buf ++ drop n b =
        moved
        ∙ ap (λ j. take (n - j) buf ++ (replicate j 0 ++ drop n b)) none_left
        ∙ ap (λ j. take j buf ++ drop n b) (omega arith) in
      rw (whole, same)
        (subst
          (λ m.
            Ends b (storing (take n buf) 0 true) b' r out
              (pos m, set (take n buf ++ drop m b) (safe_len m) 0))
          size
          (whole_ends b (take n buf) (omega (arith, size, fits)) (ground (arith, v.size, size))))
  | inr short ↦
      let bytes = take (n - left) buf ++ replicate left 0 in
      let size : length bytes ≡ n = omega (
        arith,
        k.from_left b buf n,
        k.from_readable b buf n,
        length-append (take (n - left) buf) (replicate left 0),
        length-take (n - left) buf,
        length-replicate {A = ℕ} left 0,
      ) in
      rw (short, moved ∙ sym (append_assoc (take (n - left) buf) (replicate left 0) (drop n b)))
        (subst (λ m. Ends b (storing bytes 0 false) b' r out (efault, bytes ++ drop m b)) size
          (short_ends b bytes (omega (arith, size, fits))))
]
  where
    n : ℕ
    n = to_copy len

    left : ℕ
    left = (k.copy_from_user b buf n).0

    copied : List ℕ
    copied = (k.copy_from_user b buf n).1

    fits : n ≤ length b
    fits = ground (arith, v.size)

    moved : copied ≡ take (n - left) buf ++ (replicate left 0 ++ drop n b)
    moved = k.from_copied b buf n fits
