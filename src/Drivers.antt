-- ===== src/Drivers.antt =====
-- The init and exit functions of the modules. An init function is the list of its calls, each with the
-- label that it jumps to when the call is refused; when none is, it returns 0. An exit function is the
-- list of what it gives back.
pub mod Sysfs
pub mod Threads
pub mod Plain
pub mod Family
mod Tests
use kernel_driver_lab.Prelude.{ℤ, List, [], ◌∷◌}
use kernel_driver_lab.Ledger.{Run, pure}
use kernel_driver_lab.Module.{
  Resource, region, cdev, device_class, device, kobject, sysfs_file, Answer, give, failure,
}
use kernel_driver_lab.Module.Loading.{Call, if_negative, if_err}

-- What the kernel answers to the calls of an init function; a function asks for some of these.
pub record Answers : Type 0 where
  pub alloc_chrdev_region : ℤ
  pub cdev_add : ℤ
  pub class_create : Answer
  pub device_create : Answer
  pub kobject_create_and_add : Answer
  pub sysfs_create_file : ℤ
  pub first_thread : Answer  -- kthread_run or kthread_create, in order
  pub second_thread : Answer
  pub third_thread : Answer
  pub request_irq : ℤ
  pub alloc_workqueue : Answer
  pub proc_mkdir : Answer
  pub proc_create_wait : Answer
  pub proc_create_value : Answer
  pub proc_create_threshold : Answer
  pub proc_create_status : Answer
  pub kmem_cache_create : Answer
  pub misc_register : ℤ

-- The labels that most of the functions share
abbrev pub r_class : Run Resource ℤ
r_class = give (region ∷ cdev ∷ []) (pure failure)

abbrev pub r_device : Run Resource ℤ
r_device = give (device_class ∷ []) (pure failure)

abbrev pub r_sysfs : Run Resource ℤ
r_sysfs = give (sysfs_file ∷ kobject ∷ []) r_class

-- The calls that most of the functions begin with; `refused` is what follows when the number is refused.
abbrev pub opening : Run Resource ℤ → Answers → List Call → List Call
opening refused k rest =
    if_negative region k.alloc_chrdev_region refused
    ∷ if_negative cdev k.cdev_add r_class
    ∷ if_err device_class k.class_create r_class
    ∷ if_err device k.device_create r_device
    ∷ rest
