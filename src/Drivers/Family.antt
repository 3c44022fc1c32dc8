-- ===== src/Drivers/Family.antt =====
-- All of these modules as one family.
pub mod Left
pub mod Paths
pub mod Unload
use kernel_driver_lab.Prelude.{ℤ, pos, List}
use kernel_driver_lab.Ledger.{Run, pure}
use kernel_driver_lab.Module.{Resource}
use kernel_driver_lab.Module.Loading.{Call, setup}
use kernel_driver_lab.Drivers.{Answers}
use kernel_driver_lab.Drivers.Sysfs.{
  spinlock_init, spinlock_exit, seqlock_init, seqlock_exit, irq_spinlock_init, irq_spinlock_exit,
  rwlock_init, rwlock_exit, signal_init, signal_exit, tasklet_init, tasklet_exit, workqueues_init,
  workqueues_exit, workqueues_on_cpu_init, workqueues_on_cpu_exit, own_workqueues_init,
  own_workqueues_exit, linked_list_init, linked_list_exit, prototype_init, prototype_exit,
}
use kernel_driver_lab.Drivers.Threads.{
  kthread_init, kthread_exit, atomic_init, atomic_exit, mutex_init, mutex_exit, without_mutex_init,
  without_mutex_exit, wait_queue_init, wait_queue_exit, completion_init, completion_exit,
  temp_watch_init, temp_watch_exit,
}
use kernel_driver_lab.Drivers.Plain.{
  sec_signal_init, sec_signal_exit, export_symbol_init, export_symbol_exit, export_symbol_2_init,
  export_symbol_2_exit, timer_init, timer_exit, hrtimer_init, hrtimer_exit, interrupt_init,
  interrupt_exit, procfs_init, procfs_exit, sysfs_init, sysfs_exit, slab_cache_init,
  slab_cache_exit, vmalloc_init, vmalloc_exit, kmalloc_init, kmalloc_exit, ioctl_init, ioctl_exit,
  basic_init, basic_exit, misc_init, misc_exit,
}

pub data Driver : Type 0 where
  spinlock seqlock irq_spinlock rwlock signal tasklet : Driver
  workqueues workqueues_on_cpu own_workqueues linked_list : Driver
  kthread atomic mutex without_mutex wait_queue completion : Driver
  temp_watch prototype : Driver
  sec_signal export_symbol export_symbol_2 timer hrtimer interrupt : Driver
  procfs sysfs slab_cache vmalloc kmalloc ioctl : Driver
  basic misc : Driver

abbrev pub calls : Driver → Answers → List Call
calls spinlock = spinlock_init
calls seqlock = seqlock_init
calls irq_spinlock = irq_spinlock_init
calls rwlock = rwlock_init
calls signal = signal_init
calls tasklet = tasklet_init
calls workqueues = workqueues_init
calls workqueues_on_cpu = workqueues_on_cpu_init
calls own_workqueues = own_workqueues_init
calls linked_list = linked_list_init
calls prototype = prototype_init
calls kthread = kthread_init
calls atomic = atomic_init
calls mutex = mutex_init
calls without_mutex = without_mutex_init
calls wait_queue = wait_queue_init
calls completion = completion_init
calls temp_watch = temp_watch_init
calls sec_signal = sec_signal_init
calls export_symbol = export_symbol_init
calls export_symbol_2 = export_symbol_2_init
calls timer = timer_init
calls hrtimer = hrtimer_init
calls interrupt = interrupt_init
calls procfs = procfs_init
calls sysfs = sysfs_init
calls slab_cache = slab_cache_init
calls vmalloc = vmalloc_init
calls kmalloc = kmalloc_init
calls ioctl = ioctl_init
calls basic = basic_init
calls misc = misc_init

abbrev pub exit : Driver → List Resource
exit spinlock = spinlock_exit
exit seqlock = seqlock_exit
exit irq_spinlock = irq_spinlock_exit
exit rwlock = rwlock_exit
exit signal = signal_exit
exit tasklet = tasklet_exit
exit workqueues = workqueues_exit
exit workqueues_on_cpu = workqueues_on_cpu_exit
exit own_workqueues = own_workqueues_exit
exit linked_list = linked_list_exit
exit prototype = prototype_exit
exit kthread = kthread_exit
exit atomic = atomic_exit
exit mutex = mutex_exit
exit without_mutex = without_mutex_exit
exit wait_queue = wait_queue_exit
exit completion = completion_exit
exit temp_watch = temp_watch_exit
exit sec_signal = sec_signal_exit
exit export_symbol = export_symbol_exit
exit export_symbol_2 = export_symbol_2_exit
exit timer = timer_exit
exit hrtimer = hrtimer_exit
exit interrupt = interrupt_exit
exit procfs = procfs_exit
exit sysfs = sysfs_exit
exit slab_cache = slab_cache_exit
exit vmalloc = vmalloc_exit
exit kmalloc = kmalloc_exit
exit ioctl = ioctl_exit
exit basic = basic_exit
exit misc = misc_exit

-- The init function of a driver, and what it leads to.
abbrev pub load : Driver → Answers → Run Resource ℤ
load d k = setup (calls d k) (pure (pos 0))
