-- ===== src/Chardev/Concurrent.antt =====
-- Calls of my_write and my_read that overlap: nothing in the drivers keeps them apart, and they share
-- `device_buffer`. A step is one access to a byte of the buffer.
pub mod Inside
pub mod Bounded
pub mod Overrun
pub mod Truncated
pub mod Alone
pub mod Reading
mod Tests
use kernel_driver_lab.Prelude.{
  ℕ, suc, ◌+◌, ◌≤◌, ◌<◌, ◌≡◌, ◌≢◌, ℤ, pos, efault, Bool, true, false, Option, some, List, [], ◌∷◌,
  ◌++◌, length, get_elem?, set, replicate, ltb, if◌then◌else◌,
}
use kernel_driver_lab.Chardev.{device_buffer, safe_len}

-- Where a call stands.
pub data Pc : Type 0 where
  storing : List ℕ → ℕ → Bool → Pc  -- copy_from_user: the bytes to come, the next index, all readable?
  ending : ℕ → Pc  -- before `device_buffer[safe_len] = '\0'`
  measuring : ℕ → ℕ → Pc  -- strlen, at an index; the offset of the file
  measured : ℕ → ℕ → Pc  -- the length; the offset
  copying : ℕ → List ℕ → Pc  -- copy_to_user: the length; the bytes handed out
  returned : ℤ → List ℕ → Pc  -- the result; the bytes handed out
  overrun : Pc  -- an access has left the array

-- Where a call goes on after a store at an index: a store outside the array is an overrun.
abbrev pub inside : List ℕ → ℕ → Pc → Pc
inside b i p = if ltb i (length b) then p else overrun

-- A step of one call, from a buffer to a buffer
pub data Move (b : List ℕ) : Pc → List ℕ → Pc → Type 0 where
  store :
      {x i : ℕ} {rest : List ℕ} {whole : Bool}
      → Move b (storing (x ∷ rest) i whole) (set b i x) (inside b i (storing rest (suc i) whole))
  stored : {i : ℕ} → Move b (storing [] i true) b (ending i)
  cut_short : {i : ℕ} → Move b (storing [] i false) b (returned efault [])
  terminate :
      {n i : ℕ} → i ≡ safe_len n → Move b (ending n) (set b i 0) (inside b i (returned (pos n) []))
  look :
      {x i offset : ℕ}
      → get_elem? b i ≡ some x
      → x ≢ 0
      → Move b (measuring i offset) b (measuring (suc i) offset)
  find : {i offset : ℕ} → get_elem? b i ≡ some 0 → Move b (measuring i offset) b (measured i offset)
  run_past : {i offset : ℕ} → length b ≤ i → Move b (measuring i offset) b overrun
  at_end : {n offset : ℕ} → n ≤ offset → Move b (measured n offset) b (returned (pos 0) [])
  terminate_again :
      {n offset : ℕ}
      → offset < n
      → Move b (measured n offset) (set b n 0) (inside b n (copying n []))
  hand_byte :
      {x n : ℕ} {out : List ℕ}
      → length out < n
      → get_elem? b (length out) ≡ some x
      → Move b (copying n out) b (copying n (out ++ (x ∷ [])))
  handed_out :
      {n : ℕ} {out : List ℕ} → length out ≡ n → Move b (copying n out) b (returned (pos n) out)
  hand_past :
      {n : ℕ} {out : List ℕ}
      → length out < n
      → length b ≤ length out
      → Move b (copying n out) b overrun
  refuse : {n : ℕ} {out : List ℕ} → Move b (copying n out) b (returned efault out)

-- The buffer, and the calls that have begun
pub record System : Type 0 where
  pub buffer : List ℕ
  pub calls : List Pc

-- Calls begin at any time, and any call may run next. `limit` bounds what the writers pass; the
-- drivers cut it at 1024 bytes. A write that is cut short stores zeros for what it could not read.
pub data Step (limit : ℕ) (s : System) : System → Type 0 where
  begin_write :
      (message : List ℕ)
      → length message ≤ limit
      → Step limit s (record s { calls = storing message 0 true ∷ s.calls })
  begin_short :
      (message : List ℕ) (left : ℕ)
      → length message + suc left ≤ limit
      → Step limit s
          (record s { calls = storing (message ++ replicate (suc left) 0) 0 false ∷ s.calls })
  enter_read : (offset : ℕ) → Step limit s (record s { calls = measuring 0 offset ∷ s.calls })
  run :
      (before after : List Pc) {p p' : Pc} {b : List ℕ}
      → s.calls ≡ before ++ (p ∷ after)
      → Move s.buffer p b p'
      → Step limit s (record { buffer = b; calls = before ++ (p' ∷ after) })

-- What can come about after the loading.
pub data Reach (limit : ℕ) : System → Type 0 where
  here : Reach limit (record { buffer = device_buffer; calls = [] })
  later : {s t : System} → Reach limit s → Step limit s t → Reach limit t
