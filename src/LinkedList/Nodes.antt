-- ===== src/LinkedList/Nodes.antt =====
-- The list grows by one numbered node with each accepted write, and the device behind it is the
-- plain character device.
use kernel_driver_lab.Prelude.{
  ℕ, zero, suc, ◌+◌, ◌^◌, ◌<◌, ◌≡◌, refl, ap, ap₂, ◌∙◌, einval, is_negative, leb, ◌==◌,
  if◌then◌else◌, some, List, [], ◌∷◌, ◌++◌, length, arith, Bool-cases, inl, inr, length-append,
}
use kernel_driver_lab.Chardev
use kernel_driver_lab.Chardev.{to_copy, safe_len, strlen, ReadOutcome}
use kernel_driver_lab.Chardev.UserMemory.{Uaccess}
use kernel_driver_lab.LinkedList.{State, Request, next_value, log_nodes, my_write, my_read, loaded}

-- 1, 2, …, n
abbrev pub upto : ℕ → List ℕ
upto zero = []
upto (suc n) = upto n ++ (suc n ∷ [])

-- The nodes are numbered from 1 in the order of the list, and `temp_value` is the last number.
pub record IsNumbered (s : State) : Type 0 where
  pub numbered : s.nodes ≡ upto s.temp_value
  pub small : s.temp_value < 2 ^ 32

pub loaded-IsNumbered : (b : List ℕ) → IsNumbered (loaded b)
loaded-IsNumbered b = record { numbered = refl; small = omega arith }

-- What one write does to the list: an accepted write appends the next number, an error of either
-- kind leaves the list alone.
pub write-IsNumbered :
    (k : Uaccess) (s : State) (q : Request)
    → s.temp_value + 1 < 2 ^ 32
    → IsNumbered s
    → let (result, s') = my_write k s q in
      IsNumbered s'
      × (s'.temp_value ≡ (if is_negative result then s.temp_value else suc s.temp_value))
unfolding my_write
write-IsNumbered k s q h v =
    elim (Bool-cases ((k.copy_from_user s.buffer q.buf (to_copy q.len)).0 == 0)) [
      | inl copied ↦ elim (Bool-cases q.node_granted) [
        | inl granted ↦
            rw (copied, granted)
              (let next : next_value s.temp_value ≡ suc s.temp_value = omega arith in
                rw next (
                  record {
                    numbered = ap (λ xs. xs ++ (suc s.temp_value ∷ [])) v.numbered;
                    small = omega arith;
                  },
                  refl,
                ))
        | inr refused ↦
            rw (copied, refused) (record { numbered = v.numbered; small = v.small }, refl)
      ]
      | inr failed ↦ rw failed (record { numbered = v.numbered; small = v.small }, refl)
    ]

module _ (k : Uaccess) where
  -- The writes of a client, in order: the last state, and how many were accepted.
  unfoldable pub run : State → List Request → State × ℕ
  run s [] = (s, 0)
  run s (q ∷ qs) =
      let (result, s') = my_write k s q in
      let (last, accepted) = run s' qs in
      (last, if is_negative result then accepted else suc accepted)

-- The device buffer after a write is that of the plain character device, on every path, and so is
-- the result, but for the node that could not be allocated: then it is -EINVAL where the plain
-- device would return a count, and the new message is in the buffer all the same.
pub write_refines_chardev :
    (k : Uaccess) (s : State) (q : Request)
    → let (result, s') = my_write k s q in
      let (plain, buffer) = Chardev.my_write k s.buffer q.buf q.len in
      (s'.buffer ≡ buffer)
      × (result ≡ (if is_negative plain then plain else if q.node_granted then plain else einval))
unfolding my_write Chardev.my_write
write_refines_chardev k s q = ground arith

-- (0, 1), (1, 2), …, (n - 1, n)
abbrev pub numbered_lines : ℕ → List (ℕ × ℕ)
numbered_lines zero = []
numbered_lines (suc n) = numbered_lines n ++ ((n, suc n) ∷ [])

log_nodes-append :
    (i : ℕ) (xs : List ℕ) (x : ℕ)
    → log_nodes i (xs ++ (x ∷ [])) ≡ log_nodes i xs ++ ((i + length xs, x) ∷ [])
unfolding log_nodes
log_nodes-append i [] x = ap (λ j. (j, x) ∷ []) (omega arith)
log_nodes-append i (y ∷ ys) x =
    ap (λ l. (i, y) ∷ l)
      (log_nodes-append (i + 1) ys x
        ∙ ap (λ j. log_nodes (i + 1) ys ++ ((j, x) ∷ [])) (omega arith))

length-upto : (n : ℕ) → length (upto n) ≡ n
length-upto zero = refl
length-upto (suc n) = omega (arith, length-append (upto n) (suc n ∷ []), length-upto n)

log_nodes-upto : (n : ℕ) → log_nodes 0 (upto n) ≡ numbered_lines n
unfolding log_nodes
log_nodes-upto zero = refl
log_nodes-upto (suc n) =
    log_nodes-append 0 (upto n) (suc n)
    ∙ ap₂ (λ l j. l ++ ((j, suc n) ∷ [])) (log_nodes-upto n) (omega (arith, length-upto n))

-- A read does to the user's memory, the offset and the buffer what a read of the plain character
-- device does; with numbered nodes, one that finds data logs each node once, under its place in
-- the list, and one that finds none logs nothing.
pub read_refines_chardev :
    (k : Uaccess) (s : State) (buf : List ℕ) (len offset : ℕ) {n : ℕ}
    → IsNumbered s
    → strlen s.buffer ≡ some n
    → ((my_read k s buf len offset).0 ≡ Chardev.my_read k s.buffer buf len offset)
      × ((my_read k s buf len offset).1
          ≡ (if leb n offset then [] else numbered_lines s.temp_value))
unfolding my_read Chardev.my_read
read_refines_chardev k s buf len offset {n} v h =
    rw (h, my_read, Chardev.my_read)
      (rw v.numbered (rw (log_nodes-upto s.temp_value) (ground arith)))
