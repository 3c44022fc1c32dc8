-- ===== src/Slab.antt =====
-- The write of k_custom_slab_cache-09/custom_slab_cache.c: that of the character device, and an object
-- of the module's own cache, which is filled, logged and freed.
pub mod Objects
use kernel_driver_lab.Prelude.{
  ℕ, ℤ, pos, efault, Bool, not, ◌==◌, if◌then◌else◌, List, set, Tagged, ◌≡◌, refl,
}
use kernel_driver_lab.Ledger.{Run, ◌▷◌, pure, obtain, deny, release}
use kernel_driver_lab.Chardev.{to_copy, safe_len}
use kernel_driver_lab.Chardev.UserMemory.{Uaccess}

-- What `kmem_cache_alloc` hands out.
pub data Object : Type 0 where
  custom_struct : Object

abbrev number : Object → ℕ
number custom_struct = 0

pub number-injective : (a b : Object) → number a ≡ number b → a ≡ b
number-injective custom_struct custom_struct h = refl

instance abbrev pub object_tagged : Tagged Object
object_tagged = record { tag = number; tag-injective = number-injective }

-- `my_write`: the result and the buffer, with the calls on the cache; `granted` is whether
-- `kmem_cache_alloc` hands an object out.
unfoldable pub my_write : Uaccess → List ℕ → Bool → List ℕ → ℕ → Run Object (ℤ × List ℕ)
my_write k buffer granted buf len =
    let (left, copied) = k.copy_from_user buffer buf (to_copy len) in
    if not (left == 0)
    then pure (efault, copied)
    else let ended = set copied (safe_len (to_copy len)) 0 in
      if not granted
      then deny custom_struct ▷ pure (efault, ended)
      else obtain custom_struct ▷ (release custom_struct ▷ pure (pos (to_copy len), ended))
