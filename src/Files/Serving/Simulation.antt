-- ===== src/Files/Serving/Simulation.antt =====
-- Every call on a module's file is served as the text would serve it.
use kernel_driver_lab.Prelude.{
  ℕ, ◌+◌, ◌-◌, ◌≤◌, ◌≡◌, refl, sym, subst, ap, ap₂, ◌∙◌, ℤ, pos, efault, is_negative, leb, ◌==◌,
  if◌then◌else◌, Option, none, some, List, [], ◌∷◌, ◌++◌, length, take, drop, arith, Bool-cases,
  inl, inr,
}
use mathlib.Core.List.{append-nil}
use kernel_driver_lab.Chardev
use kernel_driver_lab.Chardev.{device_buffer, to_copy, strlen}
use kernel_driver_lab.Chardev.Terminated.{
  IsTerminated, device_buffer-IsTerminated, my_write-IsTerminated, expected_read,
}
use kernel_driver_lab.Chardev.Text.{take-take_append, strlen_stop}
use kernel_driver_lab.Chardev.UserMemory.{Uaccess}
use kernel_driver_lab.Files.{State, opened, released, run}
use kernel_driver_lab.Files.Handlers.{log_open, log_release}
use kernel_driver_lab.Files.Table.{Device, completion_module, fops}
use kernel_driver_lab.Files.Text.{text_of, strlen-text, write-text}
use kernel_driver_lab.Files.Refines.{Returns}
use kernel_driver_lab.Files.Every.{write_answer, my_write-WritesAs, my_read-ReadsAs}
use kernel_driver_lab.Files.Serving.{
  World, Call, opens, writes, reads, releases, Reply, moved, enter, leave, replied, serve, view,
  text_serve, Possible, then_prepend, and_then, serve_all, TextRun, done, call, fresh,
}

-- The call is served as the abstract device would, and leaves a string in the buffer.
pub record ServedAs (k : Uaccess) (d : Device) (w : World) (c : Call) : Type 0 where
  pub left : ℕ
  pub possible : Possible (view w) c left
  pub after : World
  pub served : serve k d w c ≡ some ((text_serve d (view w) c left).0, after)
  pub viewed : view after ≡ (text_serve d (view w) c left).1
  pub kept : IsTerminated after.buffer

Returns-some :
    {P : ℤ → State → Type 0} (o : Option (ℤ × State))
    → Returns o P
    → (r : ℤ) × (s : State) × (o ≡ some (r, s)) × P r s
Returns-some none h = absurd h
Returns-some (some (r, s)) h = (r, s, refl, h)

plain_result :
    (k : Uaccess) (b buf : List ℕ) (len : ℕ) (f : ℤ → ℤ)
    → let plain = (Chardev.my_write k b buf len).0 in
      (if is_negative plain then plain else f plain)
      ≡ (if (k.copy_from_user b buf (to_copy len)).0 == 0 then f (pos (to_copy len)) else efault)
unfolding Chardev.my_write
plain_result k b buf len f = elim (Bool-cases ((k.copy_from_user b buf (to_copy len)).0 == 0)) [
  | inl whole ↦ rw whole refl
  | inr short ↦ rw short refl
]

take-text : (b : List ℕ) {n : ℕ} (i : ℕ) → strlen b ≡ some n → i ≤ n → take i b ≡ take i (text_of b)
take-text b {n} i e h =
    let (size, same) = strlen-text b e in
    sym (take-take_append i n b [] h (omega (arith, (strlen_stop b e).1)))
    ∙ ap (take i) (append-nil (take n b) ∙ same)

my_open-log_open : (k : Uaccess) (d : Device) → (fops k d).my_open ≡ log_open
my_open-log_open k completion_module = refl
my_open-log_open k d = refl

my_release-log_release : (k : Uaccess) (d : Device) → (fops k d).my_release ≡ log_release
my_release-log_release k completion_module = refl
my_release-log_release k d = refl

module _ (k : Uaccess) (b user : List ℕ) (offset n : ℕ) (e : strlen b ≡ some n) where
  abbrev left_behind : ℕ
  left_behind = if leb n offset then 0 else (k.copy_to_user user b n).0

  -- What the plain device's read does is what the text makes of it.
  read_text :
      let expected = expected_read k b user n offset in
      let m = length (text_of b) in
      (left_behind ≤ m)
      × (expected.result
          ≡ (if leb m offset then pos 0 else if left_behind == 0 then pos m else efault))
      × (expected.user ≡ (
          if leb m offset
          then user
          else take (m - left_behind) (text_of b) ++ drop (m - left_behind) user))
      × (expected.offset
          ≡ (if leb m offset then offset else if left_behind == 0 then offset + m else offset))
  read_text =
      let (size, same) = strlen-text b e in
      let inside : n ≤ length b = omega (arith, (strlen_stop b e).1) in
      rw size (elim (Bool-cases (leb n offset)) [
        | inl at_end ↦ rw at_end (omega arith, refl, refl, refl)
        | inr more ↦ rw more (
          k.to_left user b n,
          refl,
          k.to_copied user b n inside
              ∙ ap (λ t. t ++ drop (n - (k.copy_to_user user b n).0) user)
                  (take-text b (n - (k.copy_to_user user b n).0) e (omega arith)),
          refl,
        )
      ])

module _ (k : Uaccess) (d : Device) (w : World) (v : IsTerminated w.buffer) where
  write-ServedAs :
      (file : ℕ) (buf : List ℕ) (len : ℕ) (rest : State) → ServedAs k d w (writes file buf len rest)
  unfolding serve
  write-ServedAs file buf len rest =
      let s = enter w file rest in
      let (r, s', ran, (answered, stored, kept, stayed)) =
        Returns-some (run ((fops k d).my_write buf len) s) (my_write-WritesAs k d s buf len v) in
      record {
        left = (k.copy_from_user w.buffer buf (to_copy len)).0;
        possible =
            (k.from_left w.buffer buf (to_copy len), k.from_readable w.buffer buf (to_copy len));
        after = leave w file s';
        served =
            ap (replied w file) ran
            ∙ ap₂ (λ r user. some (record { result = r; user = user }, leave w file s'))
                (answered
                  ∙ plain_result k w.buffer buf len (write_answer d rest.memory_granted rest.task))
                kept;
        viewed =
            ap₂ (λ text offset. record { text = text; offsets = moved w.offsets file offset })
              (ap text_of stored ∙ write-text k w.buffer buf len v) stayed;
        kept = subst IsTerminated (sym stored) (my_write-IsTerminated k w.buffer buf len v);
      }

  read-ServedAs : (file : ℕ) (rest : State) → ServedAs k d w (reads file rest)
  unfolding serve
  read-ServedAs file rest =
      let s = enter w file rest in
      let (n, e) = v.ends in
      let (r, s', ran, (answered, same, handed, stayed)) =
        Returns-some (run (fops k d).my_read s) (my_read-ReadsAs k d s n e) in
      let (inside, result, user, offset) = read_text k w.buffer rest.user (w.offsets file) n e in
      record {
        left = left_behind k w.buffer rest.user (w.offsets file) n e;
        possible = inside;
        after = leave w file s';
        served =
            ap (replied w file) ran
            ∙ ap₂ (λ r user. some (record { result = r; user = user }, leave w file s'))
                (answered ∙ result) (handed ∙ user);
        viewed =
            ap₂ (λ text offset. record { text = text; offsets = moved w.offsets file offset })
              (ap text_of same) (stayed ∙ offset);
        kept = subst IsTerminated (sym same) v;
      }

  call-ServedAs : (c : Call) → ServedAs k d w c
  unfolding serve log_open log_release
  call-ServedAs (opens file rest) = record {
    left = 0;
    possible = refl;
    after = leave w file (record (enter w file rest) { offset = 0; log = w.log ++ (opened ∷ []) });
    served =
        ap (λ m. replied w file (run m (record (enter w file rest) { offset = 0 })))
          (my_open-log_open k d);
    viewed = refl;
    kept = v;
  }
  call-ServedAs (writes file buf len rest) = write-ServedAs file buf len rest
  call-ServedAs (reads file rest) = read-ServedAs file rest
  call-ServedAs (releases file rest) = record {
    left = 0;
    possible = refl;
    after = leave w file (record (enter w file rest) { log = w.log ++ (released ∷ []) });
    served = ap (λ m. replied w file (run m (enter w file rest))) (my_release-log_release k d);
    viewed = refl;
    kept = v;
  }

run-TextRun :
    (k : Uaccess) (d : Device) (w : World) (cs : List Call)
    → IsTerminated w.buffer
    → (replies : List Reply) × (last : World) × (serve_all k d w cs ≡ some (replies, last))
      × TextRun d (view w) cs replies (view last)
unfolding serve_all
run-TextRun k d w [] v = ([], w, refl, done)
run-TextRun k d w (c ∷ cs) v =
    let one = call-ServedAs k d w v c in
    let (replies, last, served, run) = run-TextRun k d one.after cs one.kept in
    (
      (text_serve d (view w) c one.left).0 ∷ replies,
      last,
      ap (λ o. and_then o (λ after. serve_all k d after cs)) one.served
          ∙ ap (then_prepend (text_serve d (view w) c one.left).0) served,
      call c one.left one.possible (subst (λ t. TextRun d t cs replies (view last)) one.viewed run),
    )

-- For every module of the table, every implementation of the copies to and from user memory and every
-- sequence of calls on its open files, one call at a time, the calls are all served, so that no text
-- is read past its array; and what each caller gets is what a text that starts out empty would give
-- it in some run over the same calls: a write replaces the text by the message up to its first zero
-- byte, cut where the copying failed and after 1023 bytes, and a read hands out the whole text from its
-- first byte, unless the offset of the file is at its end. The other variables may change in any way
-- between the calls.
pub serving_refines_text :
    (k : Uaccess) (d : Device) (cs : List Call)
    → (replies : List Reply) × (last : World) × (serve_all k d fresh cs ≡ some (replies, last))
      × TextRun d (record { text = []; offsets = λ file. 0 }) cs replies (view last)
unfolding device_buffer
serving_refines_text k d cs = run-TextRun k d fresh cs device_buffer-IsTerminated
