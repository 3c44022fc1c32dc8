-- ===== src/Files/Serving.antt =====
-- The file of a module under any sequence of calls, by any number of processes, a call at a time: it
-- serves them as a text would that each write replaces and each read hands out whole.
pub mod Simulation
use kernel_driver_lab.Prelude.{
  ℕ, ◌+◌, ◌-◌, ◌≤◌, ◌≡◌, refl, sym, subst, ap, ap₂, ◌∙◌, ℤ, pos, efault, is_negative, leb, ◌==◌,
  if◌then◌else◌, Option, none, some, List, [], ◌∷◌, ◌++◌, length, take, drop, true, false, arith,
  Bool-cases, inl, inr,
}
use mathlib.Core.List.{append-nil}
use kernel_driver_lab.Chardev
use kernel_driver_lab.Chardev.{device_buffer, to_copy, strlen}
use kernel_driver_lab.Chardev.Terminated.{
  IsTerminated, device_buffer-IsTerminated, my_write-IsTerminated, expected_read,
}
use kernel_driver_lab.Chardev.Text.{take-take_append, strlen_stop}
use kernel_driver_lab.Chardev.UserMemory.{Uaccess}
use kernel_driver_lab.Files.{State, Line, opened, released, run}
use kernel_driver_lab.Files.Handlers.{log_open, log_release}
use kernel_driver_lab.Files.Table.{Device, completion_module, fops}
use kernel_driver_lab.Files.Text.{text_of, written_text, strlen-text, write-text}
use kernel_driver_lab.Files.Refines.{Returns}
use kernel_driver_lab.Files.Every.{write_answer, my_write-WritesAs, my_read-ReadsAs}

-- What stays from call to call: the buffer, the log, and the position of each open file, which the
-- kernel keeps and hands over as `offset`.
pub record World : Type 0 where
  pub buffer : List ℕ
  pub log : List Line
  pub offsets : ℕ → ℕ

-- A call on a file, by its number. The last argument has the user's memory, and the values of the
-- module's other variables, which its threads may have changed since the last call.
pub data Call : Type 0 where
  opens : ℕ → State → Call
  writes : ℕ → List ℕ → ℕ → State → Call
  reads : ℕ → State → Call
  releases : ℕ → State → Call

-- What the caller gets
pub record Reply : Type 0 where
  pub result : ℤ
  pub user : List ℕ

abbrev pub moved : (ℕ → ℕ) → ℕ → ℕ → ℕ → ℕ
moved offsets file offset other = if file == other then offset else offsets other

abbrev pub enter : World → ℕ → State → State
enter w file rest = record rest { buffer = w.buffer; log = w.log; offset = w.offsets file }

abbrev pub leave : World → ℕ → State → World
leave w file s = record { buffer = s.buffer; log = s.log; offsets = moved w.offsets file s.offset }

abbrev pub replied : World → ℕ → Option (ℤ × State) → Option (Reply × World)
replied w file none = none
replied w file (some (r, s)) = some (record { result = r; user = s.user }, leave w file s)

-- One call; `none` is a read past the end of an array.
unfoldable pub serve : Uaccess → Device → World → Call → Option (Reply × World)
serve k d w (opens file rest) =
    replied w file (run (fops k d).my_open (record (enter w file rest) { offset = 0 }))
serve k d w (writes file buf len rest) =
    replied w file (run ((fops k d).my_write buf len) (enter w file rest))
serve k d w (reads file rest) = replied w file (run (fops k d).my_read (enter w file rest))
serve k d w (releases file rest) = replied w file (run (fops k d).my_release (enter w file rest))

-- The abstract device
pub record TextDevice : Type 0 where
  pub text : List ℕ
  pub offsets : ℕ → ℕ

abbrev pub view : World → TextDevice
view w = record { text = text_of w.buffer; offsets = w.offsets }

-- What it does on a call in which `left` bytes cannot be copied
abbrev pub text_read : TextDevice → ℕ → List ℕ → ℕ → Reply × TextDevice
text_read t file user left =
    let n = length t.text in
    let offset = t.offsets file in
    (
      record {
        result = if leb n offset then pos 0 else if left == 0 then pos n else efault;
        user = if leb n offset then user else take (n - left) t.text ++ drop (n - left) user;
      },
      record t {
        offsets =
            moved t.offsets file
              (if leb n offset then offset else if left == 0 then offset + n else offset);
      },
    )

abbrev pub text_serve : Device → TextDevice → Call → ℕ → Reply × TextDevice
text_serve d t (opens file rest) left =
    (record { result = pos 0; user = rest.user }, record t { offsets = moved t.offsets file 0 })
text_serve d t (writes file buf len rest) left = (
  record {
    result =
        if left == 0
        then write_answer d rest.memory_granted rest.task (pos (to_copy len))
        else efault;
    user = rest.user;
  },
  record { text = written_text buf len left; offsets = moved t.offsets file (t.offsets file) },
)
text_serve d t (reads file rest) left = text_read t file rest.user left
text_serve d t (releases file rest) left = (
  record { result = pos 0; user = rest.user },
  record t { offsets = moved t.offsets file (t.offsets file) },
)

-- How many bytes a call may fail to copy
abbrev pub Possible : TextDevice → Call → ℕ → Type 0
Possible t (opens file rest) left = left ≡ 0
Possible t (writes file buf len rest) left =
    (left ≤ to_copy len) × (to_copy len - left ≤ length buf)
Possible t (reads file rest) left = left ≤ length t.text
Possible t (releases file rest) left = left ≡ 0

abbrev pub then_prepend : Reply → Option (List Reply × World) → Option (List Reply × World)
then_prepend reply none = none
then_prepend reply (some (replies, last)) = some (reply ∷ replies, last)

abbrev pub and_then :
    Option (Reply × World) → (World → Option (List Reply × World)) → Option (List Reply × World)
and_then none rest = none
and_then (some (reply, after)) rest = then_prepend reply (rest after)

-- Calls in order: what each caller gets, and what stays.
unfoldable pub serve_all : Uaccess → Device → World → List Call → Option (List Reply × World)
serve_all k d w [] = some ([], w)
serve_all k d w (c ∷ cs) = and_then (serve k d w c) (λ after. serve_all k d after cs)

-- A run of the abstract device over the same calls, with any possible failures to copy
pub data TextRun (d : Device) : TextDevice → List Call → List Reply → TextDevice → Type 0 where
  done : {t : TextDevice} → TextRun d t [] [] t
  call :
      {t last : TextDevice} {cs : List Call} {replies : List Reply} (c : Call) (left : ℕ)
      → Possible t c left
      → TextRun d (text_serve d t c left).1 cs replies last
      → TextRun d t (c ∷ cs) ((text_serve d t c left).0 ∷ replies) last

-- A freshly loaded module, with an empty log
abbrev pub fresh : World
fresh = record { buffer = device_buffer; log = []; offsets = λ file. 0 }
