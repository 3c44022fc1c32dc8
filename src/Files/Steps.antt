-- ===== src/Files/Steps.antt =====
-- What each step of a handler does where its condition is known, as equations to chain.
use kernel_driver_lab.Prelude.{
  ℕ, ◌+◌, ◌≡◌, ◌∙◌, ap, ℤ, pos, efault, Bool, true, false, not, leb, ◌==◌, Option, none, some, List,
  [], ◌∷◌, ◌++◌, take,
}
use kernel_driver_lab.Chardev.{to_copy, strlen}
use kernel_driver_lab.Chardev.Text.{set_same, strlen_stop}
use kernel_driver_lab.Chardev.UserMemory.{Uaccess}
use kernel_driver_lab.Files.{
  Line, State, next, returned, fault, M, ◌>>=◌, ◌>>◌, return_if, printk_text, to_user, advance,
  take_message, hand_out, text_ahead,
}

module _ {A B : Type 0} (m : M A) (f : A → M B) (s : State) where
  pub bind_next : {a : A} {s' : State} → m s ≡ next a s' → (m >>= f) s ≡ f a s'
  bind_next h =
      ap (λ o. elim o [ next a t ↦ f a t | returned r t ↦ returned r t | fault ↦ fault ]) h

  pub bind_returned : {r : ℤ} {s' : State} → m s ≡ returned r s' → (m >>= f) s ≡ returned r s'
  bind_returned h =
      ap (λ o. elim o [ next a t ↦ f a t | returned r t ↦ returned r t | fault ↦ fault ]) h

pub return_if-next : (b : Bool) (r : ℤ) (s : State) → b ≡ false → return_if b r s ≡ next tt s
return_if-next b r s h = ap (λ b. return_if b r s) h

pub return_if-returned : (b : Bool) (r : ℤ) (s : State) → b ≡ true → return_if b r s ≡ returned r s
return_if-returned b r s h = ap (λ b. return_if b r s) h

pub printk_text_lem :
    (line : List ℕ → Line) (s : State) {n : ℕ}
    → strlen s.buffer ≡ some n
    → printk_text line s ≡ next tt (record s { log = s.log ++ (line (take n s.buffer) ∷ []) })
printk_text_lem line s h =
    ap
      (λ (o : Option ℕ).
        (◌>>=◌ {A = ℕ} (λ t. elim o [ none ↦ fault | some n ↦ next n t ])
            (λ n t. next tt (record t { log = t.log ++ (line (take n t.buffer) ∷ []) })))
          s)
      h

module _ (s : State) {n : ℕ} (h : strlen s.buffer ≡ some n) where
  measured :
      (f : ℕ → M ℕ)
      → (◌>>=◌ {A = ℕ} (λ t. elim (strlen t.buffer) [ none ↦ fault | some n ↦ next n t ]) f) s
        ≡ f n s
  measured f =
      ap (λ (o : Option ℕ). ◌>>=◌ {A = ℕ} (λ t. elim o [ none ↦ fault | some n ↦ next n t ]) f s) h

  pub text_ahead-next : leb n s.offset ≡ false → text_ahead s ≡ next n s
  unfolding text_ahead
  text_ahead-next more =
      measured _
      ∙ bind_next (return_if (leb n s.offset) (pos 0)) _ s
          (return_if-next (leb n s.offset) (pos 0) s more)

  pub text_ahead-returned : leb n s.offset ≡ true → text_ahead s ≡ returned (pos 0) s
  unfolding text_ahead
  text_ahead-returned at_end =
      measured _
      ∙ bind_returned (return_if (leb n s.offset) (pos 0)) _ s
          (return_if-returned (leb n s.offset) (pos 0) s at_end)

module _ (k : Uaccess) (s : State) (buf : List ℕ) (len : ℕ) where
  abbrev pub left_of_write : ℕ
  left_of_write = (k.copy_from_user s.buffer buf (to_copy len)).0

  abbrev pub copied : State
  copied = record s { buffer = (k.copy_from_user s.buffer buf (to_copy len)).1 }

  pub take_message-next :
      (left_of_write == 0) ≡ true → take_message k buf len s ≡ next (to_copy len) copied
  unfolding take_message
  take_message-next e =
      bind_next (return_if (not (left_of_write == 0)) efault) _ copied
        (return_if-next _ efault copied (ap not e))

  pub take_message-returned :
      (left_of_write == 0) ≡ false → take_message k buf len s ≡ returned efault copied
  unfolding take_message
  take_message-returned e =
      bind_returned (return_if (not (left_of_write == 0)) efault) _ copied
        (return_if-returned _ efault copied (ap not e))

module _ (k : Uaccess) (s : State) {n : ℕ} (h : strlen s.buffer ≡ some n) where
  abbrev pub left_of_read : ℕ
  left_of_read = (k.copy_to_user s.user s.buffer n).0

  abbrev pub handed : State
  handed = record s { user = (k.copy_to_user s.user s.buffer n).1 }

  abbrev copying : M (Unit {0})
  copying = do left ← to_user k n; return_if (not (left == 0)) efault; advance n

  -- The terminator is written where it stands.
  terminated : hand_out k n s ≡ copying s
  unfolding hand_out
  terminated =
      ap (λ b. copying (record s { buffer = b })) (set_same s.buffer n 0 (strlen_stop s.buffer h).0)

  pub hand_out-next :
      (left_of_read == 0) ≡ true
      → hand_out k n s ≡ next tt (record handed { offset = s.offset + n })
  hand_out-next e =
      terminated
      ∙ bind_next (return_if (not (left_of_read == 0)) efault) _ handed
          (return_if-next _ efault handed (ap not e))

  pub hand_out-returned : (left_of_read == 0) ≡ false → hand_out k n s ≡ returned efault handed
  hand_out-returned e =
      terminated
      ∙ bind_returned (return_if (not (left_of_read == 0)) efault) _ handed
          (return_if-returned _ efault handed (ap not e))
