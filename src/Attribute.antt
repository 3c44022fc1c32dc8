-- ===== src/Attribute.antt =====
-- The attribute that modules show in sysfs: `sysfs_show` and `sysfs_store` of an integer, kobj_value.
-- The kernel's sprintf and sscanf are parameters.
pub mod Register
mod Tests
use kernel_driver_lab.Prelude.{ℕ, ◌^◌, ◌<◌, ◌≡◌, ℤ, pos, Option, none, some, List, [], length}

-- "%d", on the 32 bits of an int, by `sprintf` and by `sscanf`
pub record Format : Type 0 where
  pub sprintf : ℕ → List ℕ
  pub sscanf : List ℕ → Option ℕ
  pub small : (text : List ℕ) {value : ℕ} → sscanf text ≡ some value → value < 2 ^ 32
  pub sscanf-sprintf : (value : ℕ) → value < 2 ^ 32 → sscanf (sprintf value) ≡ some value

-- What the kernel hands to the reader, and what it keeps.
pub record Shown : Type 0 where
  pub result : ℤ
  pub text : List ℕ

pub record Stored : Type 0 where
  pub result : ℤ
  pub value : ℕ

-- `struct kobj_attribute`: the two callbacks, as functions of the module's variable
pub record KobjAttribute : Type 0 where
  pub show : ℕ → Shown
  pub store : ℕ → List ℕ → Stored

-- `static int kobj_value = 10`
abbrev pub kobj_value : ℕ
kobj_value = 10

-- What `sscanf` stores: nothing, if it finds no number.
abbrev pub scanned : ℕ → Option ℕ → ℕ
scanned old none = old
scanned old (some value) = value

module _ (f : Format) where
  -- The count of bytes is that of `sprintf`.
  unfoldable pub sysfs_show : ℕ → Shown
  sysfs_show value = record { result = pos (length (f.sprintf value)); text = f.sprintf value }

  -- `count` is the length of the text; the result of `sscanf` is not looked at.
  unfoldable pub sysfs_store : ℕ → List ℕ → Stored
  sysfs_store value buff = record {
    result = pos (length buff);
    value = scanned value (f.sscanf buff);
  }

  abbrev attribute : KobjAttribute
  attribute = record { show = sysfs_show; store = sysfs_store }

-- The modules whose attribute it is
pub data Owner : Type 0 where
  linked_list seqlock_module signal_module rwspinlock_module spinlock_module
        spinlock_with_interrupts tasklet_module own_workqueues workqueues_module workqueues_on_cpu :
      Owner

-- `kobj_attr` of each of them
module _ (f : Format) where
  abbrev pub linked_list_attr : KobjAttribute
  linked_list_attr = attribute f

  abbrev pub seqlock_module_attr : KobjAttribute
  seqlock_module_attr = attribute f

  abbrev pub signal_module_attr : KobjAttribute
  signal_module_attr = attribute f

  abbrev pub rwspinlock_module_attr : KobjAttribute
  rwspinlock_module_attr = attribute f

  abbrev pub spinlock_module_attr : KobjAttribute
  spinlock_module_attr = attribute f

  abbrev pub spinlock_with_interrupts_attr : KobjAttribute
  spinlock_with_interrupts_attr = attribute f

  abbrev pub tasklet_module_attr : KobjAttribute
  tasklet_module_attr = attribute f

  abbrev pub own_workqueues_attr : KobjAttribute
  own_workqueues_attr = attribute f

  abbrev pub workqueues_module_attr : KobjAttribute
  workqueues_module_attr = attribute f

  abbrev pub workqueues_on_cpu_attr : KobjAttribute
  workqueues_on_cpu_attr = attribute f

  abbrev pub kobj_attr : Owner → KobjAttribute
  kobj_attr linked_list = linked_list_attr
  kobj_attr seqlock_module = seqlock_module_attr
  kobj_attr signal_module = signal_module_attr
  kobj_attr rwspinlock_module = rwspinlock_module_attr
  kobj_attr spinlock_module = spinlock_module_attr
  kobj_attr spinlock_with_interrupts = spinlock_with_interrupts_attr
  kobj_attr tasklet_module = tasklet_module_attr
  kobj_attr own_workqueues = own_workqueues_attr
  kobj_attr workqueues_module = workqueues_module_attr
  kobj_attr workqueues_on_cpu = workqueues_on_cpu_attr
