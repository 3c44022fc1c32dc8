-- ===== src/Usb/Wrapper/Layout.antt =====
-- The wrapper in memory: what the driver builds fits its fields, takes 31 bytes, and is read back.
use kernel_driver_lab.Prelude.{
  ℕ, zero, suc, ◌+◌, ◌*◌, ◌/◌, ◌^◌, ◌≤◌, ◌<◌, List, [], ◌∷◌, ◌≡◌, refl, ap, arith, length, take,
}
use kernel_driver_lab.Usb.Wrapper.{
  Cbw, byte, cbw_len, bytes_of, wrapper_at, test_unit_ready, request_sense, inquiry,
  read_capacity_10, read_10, write_10,
}

abbrev pub AllBytes : List ℕ → Type 0
AllBytes [] = Unit
AllBytes (x ∷ xs) = (x < 256) × AllBytes xs

-- Every field holds a value of its C type.
pub record Fits (c : Cbw) : Type 0 where
  pub signature : c.signature < 2 ^ 32
  pub tag : c.tag < 2 ^ 32
  pub data_transfer_length : c.data_transfer_length < 2 ^ 32
  pub flags : c.flags < 256
  pub lun : c.lun < 256
  pub cb_length : c.cb_length ≤ 16
  pub cb_size : length c.cb ≡ 16
  pub cb_bytes : AllBytes c.cb

take-length {ℓ} : {A : Type ℓ} (n : ℕ) (xs : List A) → length xs ≡ n → take n xs ≡ xs
take-length zero [] h = refl
take-length zero (x ∷ xs) h = absurd (omega (arith, h))
take-length (suc n) [] h = refl
take-length (suc n) (x ∷ xs) h = ap (λ ys. x ∷ ys) (take-length n xs (omega (arith, h)))

-- For each of the six commands and all arguments, the wrapper that the macro fills is within the
-- types of its fields: 32-bit words, single bytes, sixteen command bytes and a length of at most 16.
pub command-Fits :
    (alloc_len lba num_blocks block_size : ℕ)
    → Fits test_unit_ready
      × Fits (request_sense alloc_len)
      × Fits (inquiry alloc_len)
      × Fits read_capacity_10
      × Fits (read_10 lba num_blocks block_size)
      × Fits (write_10 lba num_blocks block_size)
unfolding test_unit_ready request_sense inquiry read_capacity_10 read_10 write_10
command-Fits alloc_len lba num_blocks block_size = omega arith

-- The four bytes of a 32-bit word add up to it.
word :
    {x : ℕ}
    → x < 2 ^ 32
    → byte x + byte (x / 2 ^ 8) * 2 ^ 8 + byte (x / 2 ^ 16) * 2 ^ 16 + byte (x / 2 ^ 24) * 2 ^ 24
      ≡ x
word h = omega arith

-- A wrapper within its types takes CBW_LEN bytes, and reading those bytes as a wrapper gives it back.
pub wrapper_at-bytes_of :
    (c : Cbw) → Fits c → (wrapper_at (bytes_of c) ≡ c) × (length (bytes_of c) ≡ cbw_len)
unfolding bytes_of wrapper_at
wrapper_at-bytes_of c f = (
  λ i. record {
    signature = word f.signature i;
    tag = word f.tag i;
    data_transfer_length = word f.data_transfer_length i;
    flags = c.flags;
    lun = c.lun;
    cb_length = c.cb_length;
    cb = take-length 16 c.cb f.cb_size i;
  },
  omega (arith, f.cb_size),
)
