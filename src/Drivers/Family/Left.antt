-- ===== src/Drivers/Family/Left.antt =====
-- What an init function of the family returns and leaves registered, by the call that was refused; and
-- what is left after the unloading.
use kernel_driver_lab.Prelude.{ℤ, pos, efault, enomem, Option, none, some, List, [], ◌∷◌}
use kernel_driver_lab.Ledger.{Ledger, nothing}
use kernel_driver_lab.Module.{
  Resource, region, cdev, device_class, device, kobject, sysfs_file, thread_one, thread_two,
  thread_three, irq, workqueue, timer, proc_dir, proc_wait, proc_value, proc_threshold, proc_status,
  slab_cache, misc_device, failure,
}
use kernel_driver_lab.Drivers.{Answers}
use kernel_driver_lab.Drivers.Family.{
  Driver, spinlock, seqlock, irq_spinlock, rwlock, signal, tasklet, workqueues, workqueues_on_cpu,
  own_workqueues, linked_list, kthread, atomic, mutex, without_mutex, wait_queue, completion,
  temp_watch, sec_signal, export_symbol, export_symbol_2, timer, hrtimer, interrupt, procfs, sysfs,
  slab_cache, vmalloc, kmalloc, ioctl, basic, misc, prototype,
}

-- The rows of threads are for a thread that is NULL, which no kernel returns.
abbrev pub expected_result : Driver → Answers → Option Resource → ℤ
expected_result d k none = pos 0
expected_result kthread k (some region) = failure
expected_result atomic k (some region) = failure
expected_result ioctl k (some region) = failure
expected_result sysfs k (some region) = efault
expected_result sysfs k (some kobject) = efault
expected_result vmalloc k (some region) = efault
expected_result kmalloc k (some region) = efault
expected_result slab_cache k (some cdev) = k.cdev_add
expected_result procfs k (some proc_dir) = efault
expected_result temp_watch k (some proc_dir) = pos 0
expected_result own_workqueues k (some workqueue) = enomem
expected_result linked_list k (some workqueue) = enomem
expected_result basic k (some r) = pos 1
expected_result misc k (some r) = pos 0
expected_result d k (some region) = k.alloc_chrdev_region
expected_result d k (some r) = failure

-- Held, and wrongly given back.
abbrev pub leaves : List Resource → List Resource → Ledger Resource
leaves held faults = record { held = held; faults = faults }

abbrev pub opened : List Resource
opened = device ∷ device_class ∷ cdev ∷ region ∷ []

abbrev pub shown : List Resource
shown = sysfs_file ∷ kobject ∷ opened

-- What a module holds once it is loaded.
abbrev pub loaded : Driver → List Resource
loaded spinlock = thread_two ∷ thread_one ∷ shown
loaded seqlock = thread_two ∷ thread_one ∷ shown
loaded irq_spinlock = timer ∷ thread_one ∷ shown
loaded rwlock = thread_three ∷ thread_two ∷ thread_one ∷ shown
loaded signal = irq ∷ shown
loaded tasklet = irq ∷ thread_one ∷ shown
loaded workqueues = irq ∷ thread_one ∷ shown
loaded workqueues_on_cpu = irq ∷ thread_one ∷ shown
loaded own_workqueues = workqueue ∷ irq ∷ thread_one ∷ shown
loaded linked_list = workqueue ∷ irq ∷ thread_one ∷ shown
loaded prototype = thread_one ∷ shown
loaded kthread = thread_one ∷ opened
loaded atomic = thread_two ∷ thread_one ∷ opened
loaded mutex = thread_two ∷ thread_one ∷ opened
loaded without_mutex = thread_two ∷ thread_one ∷ opened
loaded wait_queue = thread_one ∷ opened
loaded completion = thread_one ∷ opened
loaded temp_watch = thread_one ∷ proc_threshold ∷ proc_value ∷ proc_wait ∷ proc_dir ∷ opened
loaded sec_signal = opened
loaded export_symbol = opened
loaded export_symbol_2 = opened
loaded timer = timer ∷ opened
loaded hrtimer = timer ∷ opened
loaded interrupt = irq ∷ opened
loaded procfs = proc_status ∷ proc_dir ∷ opened
loaded sysfs = shown
loaded slab_cache = slab_cache ∷ opened
loaded vmalloc = opened
loaded kmalloc = opened
loaded ioctl = opened
loaded basic = device ∷ device_class ∷ region ∷ []
loaded misc = misc_device ∷ []

-- After a refusal among the calls that most of the functions begin with: the number and the character
-- device stay when the device is refused.
abbrev pub opening_left : Resource → Ledger Resource
opening_left cdev = leaves [] (cdev ∷ [])
opening_left device = leaves (cdev ∷ region ∷ []) []
opening_left _ = nothing Resource

-- With an attribute in sysfs: the device and its class stay, and what was refused is given back.
abbrev pub sysfs_left : Resource → Ledger Resource
sysfs_left sysfs_file = leaves (device ∷ device_class ∷ []) (sysfs_file ∷ [])
sysfs_left thread_one = leaves (device ∷ device_class ∷ []) (thread_one ∷ [])
sysfs_left irq = leaves (device ∷ device_class ∷ []) (irq ∷ [])
sysfs_left r = opening_left r

-- With two threads, both of which the label stops.
abbrev pub pair_left : Resource → Ledger Resource
pair_left thread_one = leaves (device ∷ device_class ∷ []) (thread_two ∷ thread_one ∷ [])
pair_left thread_two = leaves (device ∷ device_class ∷ []) (thread_two ∷ [])
pair_left r = sysfs_left r

-- With three threads, of which the labels stop those that come later.
abbrev pub three_left : Resource → Ledger Resource
three_left thread_one =
    leaves (device ∷ device_class ∷ []) (thread_three ∷ thread_two ∷ thread_one ∷ [])
three_left thread_two =
    leaves (thread_one ∷ device ∷ device_class ∷ []) (thread_three ∷ thread_two ∷ [])
three_left thread_three =
    leaves (thread_two ∷ thread_one ∷ device ∷ device_class ∷ []) (thread_three ∷ [])
three_left r = sysfs_left r

-- With a work queue, whose refusal gives nothing back.
abbrev pub queue_left : Resource → Ledger Resource
queue_left workqueue = leaves (irq ∷ thread_one ∷ shown) []
queue_left r = sysfs_left r

-- With threads behind the device alone, whose refusal gives nothing back.
abbrev pub thread_left : Resource → Ledger Resource
thread_left thread_one = leaves opened []
thread_left thread_two = leaves (thread_one ∷ opened) []
thread_left r = opening_left r

abbrev pub left : Driver → Option Resource → Ledger Resource
left d none = leaves (loaded d) []
left spinlock (some r) = pair_left r
left seqlock (some r) = pair_left r
left rwlock (some r) = three_left r
left irq_spinlock (some r) = sysfs_left r
left signal (some r) = sysfs_left r
left tasklet (some r) = sysfs_left r
left workqueues (some r) = sysfs_left r
left workqueues_on_cpu (some r) = sysfs_left r
left own_workqueues (some r) = queue_left r
left linked_list (some r) = queue_left r
left prototype (some thread_one) = leaves (sysfs_file ∷ kobject ∷ device ∷ device_class ∷ []) []
left prototype (some r) = sysfs_left r
left temp_watch (some proc_dir) = leaves opened []
left temp_watch (some thread_one) =
    leaves (proc_threshold ∷ proc_value ∷ proc_wait ∷ proc_dir ∷ device ∷ device_class ∷ []) []
left kthread (some r) = thread_left r
left atomic (some r) = thread_left r
left mutex (some r) = thread_left r
left without_mutex (some r) = thread_left r
left wait_queue (some r) = thread_left r
left completion (some r) = thread_left r
left interrupt (some r) = sysfs_left r
left procfs (some proc_dir) = leaves opened []
left sysfs (some device) = nothing Resource
left sysfs (some kobject) = leaves opened []
left sysfs (some sysfs_file) = leaves (device ∷ []) (sysfs_file ∷ [])
left slab_cache (some cdev) = leaves (region ∷ []) []
left ioctl (some cdev) = nothing Resource
left ioctl (some device_class) = leaves (cdev ∷ []) []
left ioctl (some device) = leaves (cdev ∷ []) []
left basic (some r) = leaves [] (r ∷ [])
left misc (some r) = leaves [] (r ∷ [])
left d (some r) = opening_left r

-- After the unloading of a module that the kernel kept: most have given back everything. Two leave a
-- thread, one its attribute, one its character device; three have loaded although a call was refused.
abbrev pub remains : Driver → Option Resource → Ledger Resource
remains wait_queue o = leaves (thread_one ∷ []) []
remains completion o = leaves (thread_one ∷ []) []
remains sysfs o = leaves (sysfs_file ∷ kobject ∷ []) []
remains ioctl o = leaves (cdev ∷ []) []
remains temp_watch (some r) =
    leaves [] (proc_dir ∷ proc_threshold ∷ proc_value ∷ proc_wait ∷ thread_one ∷ [])
remains basic (some r) = leaves [] (region ∷ device_class ∷ device ∷ r ∷ [])
remains misc (some r) = leaves [] (misc_device ∷ r ∷ [])
remains d o = nothing Resource
