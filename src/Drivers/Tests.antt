-- ===== src/Drivers/Tests.antt =====
-- The theorems on loading and unloading at concrete answers.
use kernel_driver_lab.Prelude.{pos, negsuc, some, [], ◌∷◌, refl, ◌≡◌, false}
use kernel_driver_lab.Ledger.{replay, nothing}
use kernel_driver_lab.Module.{
  Resource, device, device_class, sysfs_file, null, valid, resource_tagged,
}
use kernel_driver_lab.Drivers.{Answers}
use kernel_driver_lab.Drivers.Family.{rwlock, load}
use kernel_driver_lab.Drivers.Family.Left.{leaves}
use kernel_driver_lab.Drivers.Family.Paths.{is_thread, loading_paths}

abbrev all_granted : Answers
all_granted = record {
  alloc_chrdev_region = pos 0;
  cdev_add = pos 0;
  class_create = valid;
  device_create = valid;
  kobject_create_and_add = valid;
  sysfs_create_file = pos 0;
  first_thread = valid;
  second_thread = valid;
  third_thread = valid;
  request_irq = pos 0;
  alloc_workqueue = valid;
  proc_mkdir = valid;
  proc_create_wait = valid;
  proc_create_value = valid;
  proc_create_threshold = valid;
  proc_create_status = valid;
  kmem_cache_create = valid;
  misc_register = pos 0;
}

-- The file in sysfs is refused.
abbrev no_file : Answers
no_file = record all_granted { sysfs_create_file = negsuc 11 }

loading_paths_example :
    (is_thread (some sysfs_file) ≡ false)
    × ((load rwlock no_file).0 ≡ negsuc 0)
    × (replay (nothing Resource) (load rwlock no_file).1
        ≡ leaves (device ∷ device_class ∷ []) (sysfs_file ∷ []))
loading_paths_example =
    loading_paths rwlock no_file (record { first = refl; second = refl; third = refl })
      (refl, (refl, (refl, (refl, (refl, (refl, (refl, (refl, (refl, tt)))))))))

abbrev no_directory : Answers
no_directory = record all_granted { proc_mkdir = null }
