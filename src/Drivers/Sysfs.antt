-- ===== src/Drivers/Sysfs.antt =====
-- The modules that show an attribute in sysfs, and start threads, a timer, an interrupt handler or a
-- work queue behind it. They test what `kthread_run` returns for NULL, which it never is: the labels
-- behind these tests are written down as they stand, and are never jumped to.
use kernel_driver_lab.Prelude.{enomem, true, List, [], ◌∷◌}
use kernel_driver_lab.Ledger.{pure}
use kernel_driver_lab.Module.{
  Resource, region, cdev, device_class, device, kobject, sysfs_file, thread_one, thread_two,
  thread_three, irq, workqueue, timer, is_valid, give,
}
use kernel_driver_lab.Module.Loading.{Call, if_nonzero, if_null, untested}
use kernel_driver_lab.Drivers.{Answers, r_class, r_sysfs, opening}

-- `hello_init` and `hello_exit` of k_spinlocks_module-15/spinlock_module.c
abbrev pub spinlock_init : Answers → List Call
spinlock_init k = opening (pure k.alloc_chrdev_region) k (
    untested kobject (is_valid k.kobject_create_and_add)
    ∷ if_nonzero sysfs_file k.sysfs_create_file r_sysfs
    ∷ if_null thread_one k.first_thread (give (thread_one ∷ thread_two ∷ []) r_sysfs)
    ∷ if_null thread_two k.second_thread (give (thread_one ∷ thread_two ∷ []) r_sysfs)
    ∷ [])

abbrev pub spinlock_exit : List Resource
spinlock_exit =
    thread_one ∷ thread_two ∷ sysfs_file ∷ kobject ∷ device ∷ device_class ∷ cdev ∷ region ∷ []

-- `hello_init` and `hello_exit` of k_seqlock_module-24/seqlock_module.c
abbrev pub seqlock_init : Answers → List Call
seqlock_init k = opening (pure k.alloc_chrdev_region) k (
    untested kobject (is_valid k.kobject_create_and_add)
    ∷ if_nonzero sysfs_file k.sysfs_create_file r_sysfs
    ∷ if_null thread_one k.first_thread (give (thread_one ∷ thread_two ∷ []) r_sysfs)
    ∷ if_null thread_two k.second_thread (give (thread_one ∷ thread_two ∷ []) r_sysfs)
    ∷ [])

abbrev pub seqlock_exit : List Resource
seqlock_exit =
    thread_one ∷ thread_two ∷ sysfs_file ∷ kobject ∷ device ∷ device_class ∷ cdev ∷ region ∷ []

-- `hello_init` and `hello_exit` of k_spinlocks_module-15/spinlock_with_interrupts.c
abbrev pub irq_spinlock_init : Answers → List Call
irq_spinlock_init k = opening (pure k.alloc_chrdev_region) k (
    untested kobject (is_valid k.kobject_create_and_add)
    ∷ if_nonzero sysfs_file k.sysfs_create_file r_sysfs
    ∷ if_null thread_one k.first_thread (give (thread_one ∷ []) r_sysfs)
    ∷ untested timer true
    ∷ [])

abbrev pub irq_spinlock_exit : List Resource
irq_spinlock_exit =
    thread_one ∷ timer ∷ sysfs_file ∷ kobject ∷ device ∷ device_class ∷ cdev ∷ region ∷ []

-- `hello_init` and `hello_exit` of k_spinlocks_module-15/rwspinlock_module.c
abbrev pub rwlock_init : Answers → List Call
rwlock_init k = opening (pure k.alloc_chrdev_region) k (
    untested kobject (is_valid k.kobject_create_and_add)
    ∷ if_nonzero sysfs_file k.sysfs_create_file r_sysfs
    ∷ if_null thread_one k.first_thread (give (thread_one ∷ thread_two ∷ thread_three ∷ []) r_sysfs)
    ∷ if_null thread_two k.second_thread (give (thread_two ∷ thread_three ∷ []) r_sysfs)
    ∷ if_null thread_three k.third_thread (give (thread_three ∷ []) r_sysfs)
    ∷ [])

abbrev pub rwlock_exit : List Resource
rwlock_exit =
    thread_one ∷ thread_two ∷ thread_three ∷ sysfs_file ∷ kobject ∷ device ∷ device_class ∷ cdev
    ∷ region ∷ []

-- `hello_init` and `hello_exit` of k_signal_module-19/signal_module.c
abbrev pub signal_init : Answers → List Call
signal_init k = opening (pure k.alloc_chrdev_region) k (
    untested kobject (is_valid k.kobject_create_and_add)
    ∷ if_nonzero sysfs_file k.sysfs_create_file r_sysfs
    ∷ if_nonzero irq k.request_irq (give (irq ∷ []) r_sysfs)
    ∷ [])

abbrev pub signal_exit : List Resource
signal_exit = irq ∷ sysfs_file ∷ kobject ∷ device ∷ device_class ∷ cdev ∷ region ∷ []

-- `hello_init` and `hello_exit` of k_tasklet-18/tasklet_module.c
abbrev pub tasklet_init : Answers → List Call
tasklet_init k = opening (pure k.alloc_chrdev_region) k (
    untested kobject (is_valid k.kobject_create_and_add)
    ∷ if_nonzero sysfs_file k.sysfs_create_file r_sysfs
    ∷ if_null thread_one k.first_thread (give (thread_one ∷ []) r_sysfs)
    ∷ if_nonzero irq k.request_irq (give (irq ∷ thread_one ∷ []) r_sysfs)
    ∷ [])

abbrev pub tasklet_exit : List Resource
tasklet_exit = irq ∷ thread_one ∷ sysfs_file ∷ kobject ∷ device ∷ device_class ∷ cdev ∷ region ∷ []

-- `hello_init` and `hello_exit` of k_workqueues_module-16/workqueues_module.c
abbrev pub workqueues_init : Answers → List Call
workqueues_init k = opening (pure k.alloc_chrdev_region) k (
    untested kobject (is_valid k.kobject_create_and_add)
    ∷ if_nonzero sysfs_file k.sysfs_create_file r_sysfs
    ∷ if_null thread_one k.first_thread (give (thread_one ∷ []) r_sysfs)
    ∷ if_nonzero irq k.request_irq (give (irq ∷ thread_one ∷ []) r_sysfs)
    ∷ [])

abbrev pub workqueues_exit : List Resource
workqueues_exit =
    irq ∷ thread_one ∷ sysfs_file ∷ kobject ∷ device ∷ device_class ∷ cdev ∷ region ∷ []

-- `hello_init` and `hello_exit` of k_workqueues_module-16/workqueues_on_cpu.c
abbrev pub workqueues_on_cpu_init : Answers → List Call
workqueues_on_cpu_init k = opening (pure k.alloc_chrdev_region) k (
    untested kobject (is_valid k.kobject_create_and_add)
    ∷ if_nonzero sysfs_file k.sysfs_create_file r_sysfs
    ∷ if_null thread_one k.first_thread (give (thread_one ∷ []) r_sysfs)
    ∷ if_nonzero irq k.request_irq (give (irq ∷ thread_one ∷ []) r_sysfs)
    ∷ [])

abbrev pub workqueues_on_cpu_exit : List Resource
workqueues_on_cpu_exit =
    irq ∷ thread_one ∷ sysfs_file ∷ kobject ∷ device ∷ device_class ∷ cdev ∷ region ∷ []

-- `hello_init` and `hello_exit` of k_workqueues_module-16/own_workqueues.c
abbrev pub own_workqueues_init : Answers → List Call
own_workqueues_init k = opening (pure k.alloc_chrdev_region) k (
    untested kobject (is_valid k.kobject_create_and_add)
    ∷ if_nonzero sysfs_file k.sysfs_create_file r_sysfs
    ∷ if_null thread_one k.first_thread (give (thread_one ∷ []) r_sysfs)
    ∷ if_nonzero irq k.request_irq (give (irq ∷ thread_one ∷ []) r_sysfs)
    ∷ if_null workqueue k.alloc_workqueue (pure enomem)
    ∷ [])

abbrev pub own_workqueues_exit : List Resource
own_workqueues_exit =
    workqueue ∷ irq ∷ thread_one ∷ sysfs_file ∷ kobject ∷ device ∷ device_class ∷ cdev ∷ region ∷ []

-- `hello_init` and `hello_exit` of k_linked_list-17/linked_list.c
abbrev pub linked_list_init : Answers → List Call
linked_list_init k = opening (pure k.alloc_chrdev_region) k (
    untested kobject (is_valid k.kobject_create_and_add)
    ∷ if_nonzero sysfs_file k.sysfs_create_file r_sysfs
    ∷ if_null thread_one k.first_thread (give (thread_one ∷ []) r_sysfs)
    ∷ if_nonzero irq k.request_irq (give (irq ∷ thread_one ∷ []) r_sysfs)
    ∷ if_null workqueue k.alloc_workqueue (pure enomem)
    ∷ [])

abbrev pub linked_list_exit : List Resource
linked_list_exit =
    workqueue ∷ irq ∷ thread_one ∷ sysfs_file ∷ kobject ∷ device ∷ device_class ∷ cdev ∷ region ∷ []

-- `hello_init` and `hello_exit` of k_prototype_example/prototype_example.c, which names functions and
-- variables that are declared nowhere.
abbrev pub prototype_init : Answers → List Call
prototype_init k = opening (pure k.alloc_chrdev_region) k (
    untested kobject (is_valid k.kobject_create_and_add)
    ∷ if_nonzero sysfs_file k.sysfs_create_file (give (kobject ∷ sysfs_file ∷ []) r_class)
    ∷ if_null thread_one k.first_thread r_class
    ∷ [])

abbrev pub prototype_exit : List Resource
prototype_exit = thread_one ∷ kobject ∷ sysfs_file ∷ device ∷ device_class ∷ cdev ∷ region ∷ []
