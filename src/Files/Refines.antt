-- ===== src/Files/Refines.antt =====
-- Each handler against the plain character device of `Chardev`: what it returns and leaves in the
-- buffer, in the user's memory and in the offset, on every path.
use kernel_driver_lab.Prelude.{
  [], ◌∷◌, ◌++◌, take, ℕ, ◌+◌, ◌≡◌, refl, sym, subst, ◌∙◌, ℤ, pos, is_negative, Bool, true, leb,
  ◌==◌, if◌then◌else◌, Option, none, some, List, set, Bool-cases, inl, inr,
}
use kernel_driver_lab.Chardev
use kernel_driver_lab.Chardev.{buff_size, to_copy, safe_len, strlen, ReadOutcome}
use kernel_driver_lab.Chardev.Terminated.{IsTerminated, my_write-IsTerminated, expected_read}
use kernel_driver_lab.Chardev.UserMemory.{Uaccess}
use kernel_driver_lab.Files.{
  printk_text, Line, State, M, Outcome, next, returned, fault, ◌>>=◌, ◌>>◌, settle, run,
  take_message, hand_out, text_ahead,
}
use kernel_driver_lab.Files.Steps.{
  printk_text_lem, bind_next, bind_returned, text_ahead-next, text_ahead-returned, copied,
  left_of_write, take_message-next, take_message-returned, left_of_read, handed, hand_out-next,
  hand_out-returned,
}

-- The handler returns, and what it returns and leaves is as `P` says.
abbrev pub Returns : Option (ℤ × State) → (ℤ → State → Type 0) → Type 0
Returns none P = ⊥
Returns (some (r, s)) P = P r s

abbrev pub Ends : Outcome ℤ → (ℤ → State → Type 0) → Type 0
Ends o P = Returns (settle o) P

pub Ends-eq : (P : ℤ → State → Type 0) {o o' : Outcome ℤ} → o ≡ o' → Ends o' P → Ends o P
Ends-eq P h e = subst (λ o. Ends o P) (sym h) e

pub Ends-map :
    {P Q : ℤ → State → Type 0} (o : Outcome ℤ)
    → ((r : ℤ) (s : State) → P r s → Q r s)
    → Ends o P
    → Ends o Q
Ends-map (next r s) f h = f r s h
Ends-map (returned r s) f h = f r s h
Ends-map fault f h = h

-- What a write answers where the plain device returns a count, from what `kmalloc` answers and the
-- process to signal
abbrev pub Answer : Type 0
Answer = Bool → Option ℕ → ℤ → ℤ

module _ (k : Uaccess) where
  -- What the plain device's write does to the buffer, and an answer by `answer`
  abbrev pub AsWritten : Answer → State → List ℕ → ℕ → ℤ → State → Type 0
  AsWritten answer s buf len r s' =
      let (plain, buffer) = Chardev.my_write k s.buffer buf len in
      (r ≡ (if is_negative plain then plain else answer s.memory_granted s.task plain))
      × (s'.buffer ≡ buffer)
      × (s'.user ≡ s.user)
      × (s'.offset ≡ s.offset)

  -- What the plain device's read does
  abbrev pub AsRead : State → ℕ → ℤ → State → Type 0
  AsRead s n r s' =
      let expected = expected_read k s.buffer s.user n s.offset in
      (r ≡ expected.result)
      × (s'.buffer ≡ s.buffer)
      × (s'.user ≡ expected.user)
      × (s'.offset ≡ expected.offset)

  abbrev pub WritesAs : Answer → (List ℕ → ℕ → M ℤ) → Type 0
  WritesAs answer m =
      (s : State) (buf : List ℕ) (len : ℕ)
      → IsTerminated s.buffer
      → Returns (run (m buf len) s) (AsWritten answer s buf len)

  abbrev pub ReadsAs : M ℤ → Type 0
  ReadsAs m = (s : State) (n : ℕ) → strlen s.buffer ≡ some n → Returns (run m s) (AsRead s n)

-- What the part of a write that follows the copying does, on a buffer in which the message ends
abbrev pub AsEnded : Answer → State → ℕ → ℤ → State → Type 0
AsEnded answer s n r s' =
    (r ≡ answer s.memory_granted s.task (pos n))
    × (s'.buffer ≡ set s.buffer (safe_len n) 0)
    × (s'.user ≡ s.user)
    × (s'.offset ≡ s.offset)

abbrev pub EndsWrite : Answer → (ℕ → M ℤ) → Type 0
EndsWrite answer rest =
    (s : State) (n m : ℕ)
    → strlen (set s.buffer (safe_len n) 0) ≡ some m
    → Ends (rest n s) (AsEnded answer s n)

-- The part of a read between the measuring and the copying: at most lines in the log
abbrev pub Logs : M (Unit {0}) → Type 0
Logs m = (s : State) → (log : List Line) × (m s ≡ next tt (record s { log = log }))

-- What the part of a read that follows the copying does
abbrev pub AsHanded : State → ℕ → ℤ → State → Type 0
AsHanded s n r s' =
    (r ≡ pos n) × (s'.buffer ≡ s.buffer) × (s'.user ≡ s.user) × (s'.offset ≡ s.offset)

abbrev pub EndsRead : (ℕ → M ℤ) → Type 0
EndsRead rest = (s : State) (n : ℕ) → strlen s.buffer ≡ some n → Ends (rest n s) (AsHanded s n)

-- A write that has copied everything leaves a string.
ended :
    (k : Uaccess) (b buf : List ℕ) (len : ℕ)
    → IsTerminated b
    → ((k.copy_from_user b buf (to_copy len)).0 == 0) ≡ true
    → (n : ℕ) × (strlen (set (k.copy_from_user b buf (to_copy len)).1 (safe_len (to_copy len)) 0)
        ≡ some n)
unfolding Chardev.my_write
ended k b buf len v whole =
    let kept : IsTerminated (Chardev.my_write k b buf len).1 =
      my_write-IsTerminated k b buf len v in
    (kept.ends.0, rw whole at kept.ends.1)

module _ (k : Uaccess) where
  pub writes_as :
      (answer : Answer) (rest : ℕ → M ℤ)
      → EndsWrite answer rest
      → WritesAs k answer (λ buf len. do n ← take_message k buf len; rest n)
  unfolding Chardev.my_write
  writes_as answer rest h s buf len v = elim (Bool-cases (left_of_write k s buf len == 0)) [
    | inl whole ↦
        Ends-eq (AsWritten k answer s buf len)
          (bind_next (take_message k buf len) rest s (take_message-next k s buf len whole))
          (let (m, e) = ended k s.buffer buf len v whole in
            Ends-map (rest (to_copy len) (copied k s buf len)) (λ r t p. rw whole p)
              (h (copied k s buf len) (to_copy len) m e))
    | inr short ↦
        Ends-eq (AsWritten k answer s buf len)
          (bind_returned (take_message k buf len) rest s (take_message-returned k s buf len short))
          (rw short (refl, refl, refl, refl))
  ]

  pub reads_as :
      (before : ℕ → M (Unit {0})) (rest : ℕ → M ℤ)
      → ((n : ℕ) → Logs (before n))
      → EndsRead rest
      → ReadsAs k (do length ← text_ahead; before length; hand_out k length; rest length)
  reads_as before rest l h s n e = elim (Bool-cases (leb n s.offset)) [
    | inl at_end ↦
        Ends-eq (AsRead k s n) (bind_returned text_ahead body s (text_ahead-returned s e at_end))
          (rw at_end (refl, refl, refl, refl))
    | inr more ↦
        let (log, logged) = l n s in
        let s' : State = record s { log = log } in
        let measured : (text_ahead >>= body) s ≡ (do hand_out k n; rest n) s' =
          bind_next text_ahead body s (text_ahead-next s e more)
          ∙ bind_next (before n) (λ _. do hand_out k n; rest n) s logged in
        elim (Bool-cases (left_of_read k s' e == 0)) [
          | inl whole ↦
              Ends-eq (AsRead k s n)
                (measured ∙ bind_next (hand_out k n) (λ _. rest n) s' (hand_out-next k s' e whole))
                (Ends-map (rest n (advanced s' e)) (λ r t p. rw (more, whole) p)
                  (h (advanced s' e) n e))
          | inr short ↦
              Ends-eq (AsRead k s n)
                (measured
                  ∙ bind_returned (hand_out k n) (λ _. rest n) s' (hand_out-returned k s' e short))
                (rw (more, short) (refl, refl, refl, refl))
        ]
  ]
    where
      body : ℕ → M ℤ
      body length = do before length; hand_out k length; rest length

      advanced : (t : State) → strlen t.buffer ≡ some n → State
      advanced t e = record (handed k t e) { offset = t.offset + n }

-- A handler that ends by a text of the buffer in the log, and then `rest`
pub logs_text :
    (P : ℤ → State → Type 0) (line : List ℕ → Line) (rest : M ℤ) (s : State) {m : ℕ}
    → strlen s.buffer ≡ some m
    → Ends (rest (record s { log = s.log ++ (line (take m s.buffer) ∷ []) })) P
    → Ends ((do printk_text line; rest) s) P
logs_text P line rest s e h =
    Ends-eq P (bind_next (printk_text line) (λ _. rest) s (printk_text_lem line s e)) h
