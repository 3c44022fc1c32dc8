-- ===== src/Module.antt =====
-- What the modules of this repository register with the kernel when they are loaded, and how the
-- kernel answers. Every driver's init function asks for these in turn, and jumps to a clean-up label
-- when a call fails; its exit function gives them back.
pub mod Loading
use kernel_driver_lab.Prelude.{
  ℕ, ◌≡◌, ℤ, negsuc, Bool, true, false, List, [], ◌∷◌, arith, Tagged, if◌then◌else◌,
}
use kernel_driver_lab.Ledger.{Run, ◌▷◌, obtain, deny, release}

pub data Resource : Type 0 where
  region : Resource  -- alloc_chrdev_region, unregister_chrdev_region
  cdev : Resource  -- cdev_add, cdev_del
  device_class : Resource  -- class_create, class_destroy
  device : Resource  -- device_create, device_destroy
  kobject : Resource  -- kobject_create_and_add, kobject_put
  sysfs_file : Resource  -- sysfs_create_file, sysfs_remove_file
  thread_one : Resource  -- kthread_run, kthread_stop
  thread_two : Resource
  irq : Resource  -- request_irq, free_irq
  workqueue : Resource  -- alloc_workqueue, destroy_workqueue
  proc_dir : Resource  -- proc_mkdir, proc_remove
  proc_wait : Resource  -- proc_create, remove_proc_entry
  proc_value : Resource
  proc_threshold : Resource
  gpio_line : Resource  -- gpio_request, gpio_free; gpiod_put frees the line of a descriptor too
  gpio_export : Resource  -- gpiod_export, gpiod_unexport
  thread_three : Resource
  timer : Resource  -- mod_timer or hrtimer_start, del_timer or hrtimer_cancel
  proc_status : Resource  -- proc_create, proc_remove of its directory
  slab_cache : Resource  -- kmem_cache_create, kmem_cache_destroy
  misc_device : Resource  -- misc_register, misc_deregister

abbrev pub number : Resource → ℕ
number region = 0
number cdev = 1
number device_class = 2
number device = 3
number kobject = 4
number sysfs_file = 5
number thread_one = 6
number thread_two = 7
number irq = 8
number workqueue = 9
number proc_dir = 10
number proc_wait = 11
number proc_value = 12
number proc_threshold = 13
number gpio_line = 14
number gpio_export = 15
number thread_three = 16
number timer = 17
number proc_status = 18
number slab_cache = 19
number misc_device = 20

pub number-injective : (a b : Resource) → number a ≡ number b → a ≡ b
number-injective region b h = ground arith
number-injective cdev b h = ground arith
number-injective device_class b h = ground arith
number-injective device b h = ground arith
number-injective kobject b h = ground arith
number-injective sysfs_file b h = ground arith
number-injective thread_one b h = ground arith
number-injective thread_two b h = ground arith
number-injective irq b h = ground arith
number-injective workqueue b h = ground arith
number-injective proc_dir b h = ground arith
number-injective proc_wait b h = ground arith
number-injective proc_value b h = ground arith
number-injective proc_threshold b h = ground arith
number-injective gpio_line b h = ground arith
number-injective gpio_export b h = ground arith
number-injective thread_three b h = ground arith
number-injective timer b h = ground arith
number-injective proc_status b h = ground arith
number-injective slab_cache b h = ground arith
number-injective misc_device b h = ground arith

instance abbrev pub resource_tagged : Tagged Resource
resource_tagged = record { tag = number; tag-injective = number-injective }

-- A pointer that a call returns.
pub data Answer : Type 0 where
  null : Answer
  error : Answer  -- an error code as a pointer
  valid : Answer

-- `IS_ERR(p)`
abbrev pub is_err : Answer → Bool
is_err null = false
is_err error = true
is_err valid = false

-- `!p`
abbrev pub is_null : Answer → Bool
is_null null = true
is_null error = false
is_null valid = false

abbrev pub is_valid : Answer → Bool
is_valid null = false
is_valid error = false
is_valid valid = true

-- A call for a resource, and the rest of the function.
abbrev pub ask : {A : Type 0} → Resource → Bool → Run Resource A → Run Resource A
ask r granted rest = (if granted then obtain r else deny r) ▷ rest

-- The calls that give resources back, in order, and the rest of the function.
abbrev pub give : {A : Type 0} → List Resource → Run Resource A → Run Resource A
give [] rest = rest
give (r ∷ rs) rest = release r ▷ give rs rest

-- `return -1`
abbrev pub failure : ℤ
failure = negsuc 0
