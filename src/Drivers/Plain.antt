-- ===== src/Drivers/Plain.antt =====
-- The other modules that register something: a bare device, a timer, an interrupt handler, a file.
use kernel_driver_lab.Prelude.{pos, efault, is_negative, not, true, List, [], ◌∷◌}
use kernel_driver_lab.Ledger.{pure}
use kernel_driver_lab.Module.{
  Resource, region, cdev, device_class, device, kobject, sysfs_file, irq, timer, proc_dir,
  proc_status, slab_cache, misc_device, is_valid, give, failure,
}
use kernel_driver_lab.Module.Loading.{Call, if_negative, if_nonzero, if_err, if_null, untested}
use kernel_driver_lab.Drivers.{Answers, r_class, r_device, opening}

-- `hello_init` and `hello_exit` of k_signal_module-19/sec_signal_module.c
abbrev pub sec_signal_init : Answers → List Call
sec_signal_init k = opening (pure k.alloc_chrdev_region) k []

abbrev pub sec_signal_exit : List Resource
sec_signal_exit = device ∷ device_class ∷ cdev ∷ region ∷ []

-- `hello_init` and `hello_exit` of k_export_symbol-22/export_symbol.c
abbrev pub export_symbol_init : Answers → List Call
export_symbol_init k = opening (pure k.alloc_chrdev_region) k []

abbrev pub export_symbol_exit : List Resource
export_symbol_exit = device ∷ device_class ∷ cdev ∷ region ∷ []

-- `hello_init` and `hello_exit` of k_export_symbol-22/export_symbol_2.c
abbrev pub export_symbol_2_init : Answers → List Call
export_symbol_2_init k = opening (pure k.alloc_chrdev_region) k []

abbrev pub export_symbol_2_exit : List Resource
export_symbol_2_exit = device ∷ device_class ∷ cdev ∷ region ∷ []

-- `hello_init` and `hello_exit` of k_timer_module-20/timer_module.c
abbrev pub timer_init : Answers → List Call
timer_init k = opening (pure k.alloc_chrdev_region) k (untested timer true ∷ [])

abbrev pub timer_exit : List Resource
timer_exit = timer ∷ device ∷ device_class ∷ cdev ∷ region ∷ []

-- `hello_init` and `hello_exit` of k_timer_module-20/hrtimer_module.c
abbrev pub hrtimer_init : Answers → List Call
hrtimer_init k = opening (pure k.alloc_chrdev_region) k (untested timer true ∷ [])

abbrev pub hrtimer_exit : List Resource
hrtimer_exit = timer ∷ device ∷ device_class ∷ cdev ∷ region ∷ []

-- `hello_init` and `hello_exit` of k_interrupt_prog-14/interrupt_module.c
abbrev pub interrupt_init : Answers → List Call
interrupt_init k =
    opening (pure k.alloc_chrdev_region) k
      (if_nonzero irq k.request_irq (give (irq ∷ []) r_class) ∷ [])

abbrev pub interrupt_exit : List Resource
interrupt_exit = irq ∷ device ∷ device_class ∷ cdev ∷ region ∷ []

-- `hello_init` and `hello_exit` of k_procfs_module-08/procfs_module.c
abbrev pub procfs_init : Answers → List Call
procfs_init k =
    if_negative region k.alloc_chrdev_region (pure k.alloc_chrdev_region)
    ∷ if_negative cdev k.cdev_add (give (cdev ∷ region ∷ []) (pure failure))
    ∷ if_err device_class k.class_create (give (cdev ∷ region ∷ []) (pure failure))
    ∷ if_err device k.device_create r_device
    ∷ if_null proc_dir k.proc_mkdir (pure efault)
    ∷ untested proc_status (is_valid k.proc_create_status)
    ∷ []

abbrev pub procfs_exit : List Resource
procfs_exit = proc_status ∷ proc_dir ∷ device ∷ device_class ∷ cdev ∷ region ∷ []

-- `driver_init_sysfs` and `driver_exit_sysfs` of k_sysfs_module-07/sysfs_module.c
abbrev pub sysfs_init : Answers → List Call
sysfs_init k =
    if_negative region k.alloc_chrdev_region (pure efault)
    ∷ if_negative cdev k.cdev_add r_class
    ∷ if_err device_class k.class_create r_class
    ∷ if_err device k.device_create (give (device_class ∷ []) r_class)
    ∷ if_null kobject k.kobject_create_and_add (pure efault)
    ∷ if_nonzero sysfs_file k.sysfs_create_file
        (give (kobject ∷ sysfs_file ∷ device_class ∷ []) r_class)
    ∷ []

abbrev pub sysfs_exit : List Resource
sysfs_exit = device ∷ device_class ∷ cdev ∷ region ∷ []

-- `hello_init` and `hello_exit` of k_custom_slab_cache-09/custom_slab_cache.c
abbrev pub slab_cache_init : Answers → List Call
slab_cache_init k =
    if_negative region k.alloc_chrdev_region (pure k.alloc_chrdev_region)
    ∷ if_negative cdev k.cdev_add (pure k.cdev_add)
    ∷ untested device_class (is_valid k.class_create)
    ∷ untested device (is_valid k.device_create)
    ∷ untested slab_cache (is_valid k.kmem_cache_create)
    ∷ []

abbrev pub slab_cache_exit : List Resource
slab_cache_exit = slab_cache ∷ device ∷ device_class ∷ cdev ∷ region ∷ []

-- `vmalloc_init` and `vmalloc_exit` of k_vmalloc-06/vmalloc.c
abbrev pub vmalloc_init : Answers → List Call
vmalloc_init k =
    if_negative region k.alloc_chrdev_region (pure efault)
    ∷ untested cdev (not (is_negative k.cdev_add))
    ∷ untested device_class (is_valid k.class_create)
    ∷ untested device (is_valid k.device_create)
    ∷ []

abbrev pub vmalloc_exit : List Resource
vmalloc_exit = device ∷ device_class ∷ cdev ∷ region ∷ []

-- `kmalloc_init` and `kmalloc_exit` of k_malloc_05/kmalloc.c
abbrev pub kmalloc_init : Answers → List Call
kmalloc_init k =
    if_negative region k.alloc_chrdev_region (pure efault)
    ∷ untested cdev (not (is_negative k.cdev_add))
    ∷ untested device_class (is_valid k.class_create)
    ∷ untested device (is_valid k.device_create)
    ∷ []

abbrev pub kmalloc_exit : List Resource
kmalloc_exit = device ∷ device_class ∷ cdev ∷ region ∷ []

-- `ioctl_driver` and `ioctl_exit` of k_ioctl_module-04/ioctl.c
abbrev pub ioctl_init : Answers → List Call
ioctl_init k =
    if_negative region k.alloc_chrdev_region (pure failure)
    ∷ if_negative cdev k.cdev_add (give (region ∷ []) (pure failure))
    ∷ if_err device_class k.class_create (give (region ∷ []) (pure failure))
    ∷ if_err device k.device_create (give (device_class ∷ region ∷ []) (pure failure))
    ∷ []

abbrev pub ioctl_exit : List Resource
ioctl_exit = device ∷ device_class ∷ region ∷ []

-- `dev_init` and `dev_exit` of k_basic_device_driver-03/device_driver.c
abbrev pub basic_init : Answers → List Call
basic_init k =
    if_negative region k.alloc_chrdev_region (give (region ∷ []) (pure (pos 1)))
    ∷ if_err device_class k.class_create (give (device_class ∷ region ∷ []) (pure (pos 1)))
    ∷ if_err device k.device_create (give (device ∷ device_class ∷ region ∷ []) (pure (pos 1)))
    ∷ []

abbrev pub basic_exit : List Resource
basic_exit = device ∷ device_class ∷ region ∷ []

-- `misc_init` and `misc_exit` of k_misc_device-25/misc_module.c
abbrev pub misc_init : Answers → List Call
misc_init k = if_negative misc_device k.misc_register (give (misc_device ∷ []) (pure (pos 0))) ∷ []

abbrev pub misc_exit : List Resource
misc_exit = misc_device ∷ []
