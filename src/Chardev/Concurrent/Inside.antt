-- ===== src/Chardev/Concurrent/Inside.antt =====
-- The stores that stay in the array: what follows them.
use kernel_driver_lab.Prelude.{
  ℕ, suc, ◌<◌, ◌≡◌, refl, Bool, List, ◌∷◌, [], length, set, pos, subst, arith,
}
use kernel_driver_lab.Chardev.{safe_len}
use kernel_driver_lab.Chardev.Concurrent.{
  Pc, storing, ending, measured, copying, returned, inside, Move, store, terminate, terminate_again,
}

pub inside_in : (b : List ℕ) (i : ℕ) (p : Pc) → i < length b → inside b i p ≡ p
inside_in b i p h = ground arith

module _ (b : List ℕ) where
  pub store_in :
      {x i : ℕ} {rest : List ℕ} {whole : Bool}
      → i < length b
      → Move b (storing (x ∷ rest) i whole) (set b i x) (storing rest (suc i) whole)
  store_in {x} {i} {rest} {whole} h =
      subst (Move b (storing (x ∷ rest) i whole) (set b i x))
        (inside_in b i (storing rest (suc i) whole) h) store

  pub terminate_in :
      {n : ℕ}
      → safe_len n < length b
      → Move b (ending n) (set b (safe_len n) 0) (returned (pos n) [])
  terminate_in {n} h =
      subst (Move b (ending n) (set b (safe_len n) 0))
        (inside_in b (safe_len n) (returned (pos n) []) h) (terminate refl)

  pub terminate_again_in :
      {n offset : ℕ}
      → offset < n
      → n < length b
      → Move b (measured n offset) (set b n 0) (copying n [])
  terminate_again_in {n} {offset} before h =
      subst (Move b (measured n offset) (set b n 0)) (inside_in b n (copying n []) h)
        (terminate_again before)
