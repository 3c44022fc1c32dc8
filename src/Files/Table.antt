-- ===== src/Files/Table.antt =====
-- The file operations that each module registers, and the calls that a process makes on an open file.
use kernel_driver_lab.Prelude.{ℕ, ℤ, List}
use kernel_driver_lab.Chardev.UserMemory.{Uaccess}
use kernel_driver_lab.Files.{M}
use kernel_driver_lab.Files.Handlers.{
  log_open, log_release, list_write, log_write, short_write, signal_write, slab_write, begin_read,
  bye_read, completion_read, counting_read, here_read, list_read, plain_read, wait_queue_read,
  waking_read,
}

-- `struct file_operations`, less the ioctl
pub record FileOperations : Type 0 where
  pub my_open : M ℤ
  pub my_write : List ℕ → ℕ → M ℤ
  pub my_read : M ℤ
  pub my_release : M ℤ

abbrev operations : (List ℕ → ℕ → M ℤ) → M ℤ → FileOperations
operations w r = record { my_open = log_open; my_write = w; my_read = r; my_release = log_release }

-- The modules, by the names of their files
pub data Device : Type 0 where
  completion_module custom_slab_cache export_symbol export_symbol_2 linked_list mutex_module
        without_mutex_module procfs_module prototype_example seqlock_module sec_signal_module
        signal_module rwspinlock_module spinlock_module spinlock_with_interrupts tasklet_module
        hrtimer_module timer_module wait_queue_module own_workqueues workqueues_module
        workqueues_on_cpu :
      Device

module _ (k : Uaccess) where
  -- k_completion_module-21/completion_module.c
  abbrev pub completion_module_fops : FileOperations
  completion_module_fops = operations (log_write k) (completion_read k)

  -- k_custom_slab_cache-09/custom_slab_cache.c
  abbrev pub custom_slab_cache_fops : FileOperations
  custom_slab_cache_fops = operations (slab_write k) (here_read k)

  -- k_export_symbol-22/export_symbol.c
  abbrev pub export_symbol_fops : FileOperations
  export_symbol_fops = operations (log_write k) (bye_read k)

  -- k_export_symbol-22/export_symbol_2.c
  abbrev pub export_symbol_2_fops : FileOperations
  export_symbol_2_fops = operations (log_write k) (counting_read k)

  -- k_linked_list-17/linked_list.c
  abbrev pub linked_list_fops : FileOperations
  linked_list_fops = operations (list_write k) (list_read k)

  -- k_mutex_module-12/mutex_module.c
  abbrev pub mutex_module_fops : FileOperations
  mutex_module_fops = operations (log_write k) (bye_read k)

  -- k_mutex_module-12/without_mutex_module.c
  abbrev pub without_mutex_module_fops : FileOperations
  without_mutex_module_fops = operations (log_write k) (bye_read k)

  -- k_procfs_module-08/procfs_module.c
  abbrev pub procfs_module_fops : FileOperations
  procfs_module_fops = operations (log_write k) (here_read k)

  -- k_prototype_example/prototype_example.c
  abbrev pub prototype_example_fops : FileOperations
  prototype_example_fops = operations (log_write k) (waking_read k)

  -- k_seqlock_module-24/seqlock_module.c
  abbrev pub seqlock_module_fops : FileOperations
  seqlock_module_fops = operations (log_write k) (plain_read k)

  -- k_signal_module-19/sec_signal_module.c
  abbrev pub sec_signal_module_fops : FileOperations
  sec_signal_module_fops = operations (short_write k) (begin_read k)

  -- k_signal_module-19/signal_module.c
  abbrev pub signal_module_fops : FileOperations
  signal_module_fops = operations (signal_write k) (begin_read k)

  -- k_spinlocks_module-15/rwspinlock_module.c
  abbrev pub rwspinlock_module_fops : FileOperations
  rwspinlock_module_fops = operations (log_write k) (plain_read k)

  -- k_spinlocks_module-15/spinlock_module.c
  abbrev pub spinlock_module_fops : FileOperations
  spinlock_module_fops = operations (log_write k) (plain_read k)

  -- k_spinlocks_module-15/spinlock_with_interrupts.c
  abbrev pub spinlock_with_interrupts_fops : FileOperations
  spinlock_with_interrupts_fops = operations (log_write k) (plain_read k)

  -- k_tasklet-18/tasklet_module.c
  abbrev pub tasklet_module_fops : FileOperations
  tasklet_module_fops = operations (list_write k) (list_read k)

  -- k_timer_module-20/hrtimer_module.c
  abbrev pub hrtimer_module_fops : FileOperations
  hrtimer_module_fops = operations (short_write k) (begin_read k)

  -- k_timer_module-20/timer_module.c
  abbrev pub timer_module_fops : FileOperations
  timer_module_fops = operations (short_write k) (begin_read k)

  -- k_wait_queues-10/wait_queue_module.c
  abbrev pub wait_queue_module_fops : FileOperations
  wait_queue_module_fops = operations (log_write k) (wait_queue_read k)

  -- k_workqueues_module-16/own_workqueues.c
  abbrev pub own_workqueues_fops : FileOperations
  own_workqueues_fops = operations (log_write k) (plain_read k)

  -- k_workqueues_module-16/workqueues_module.c
  abbrev pub workqueues_module_fops : FileOperations
  workqueues_module_fops = operations (log_write k) (plain_read k)

  -- k_workqueues_module-16/workqueues_on_cpu.c
  abbrev pub workqueues_on_cpu_fops : FileOperations
  workqueues_on_cpu_fops = operations (log_write k) (plain_read k)

  abbrev pub fops : Device → FileOperations
  fops completion_module = completion_module_fops
  fops custom_slab_cache = custom_slab_cache_fops
  fops export_symbol = export_symbol_fops
  fops export_symbol_2 = export_symbol_2_fops
  fops linked_list = linked_list_fops
  fops mutex_module = mutex_module_fops
  fops without_mutex_module = without_mutex_module_fops
  fops procfs_module = procfs_module_fops
  fops prototype_example = prototype_example_fops
  fops seqlock_module = seqlock_module_fops
  fops sec_signal_module = sec_signal_module_fops
  fops signal_module = signal_module_fops
  fops rwspinlock_module = rwspinlock_module_fops
  fops spinlock_module = spinlock_module_fops
  fops spinlock_with_interrupts = spinlock_with_interrupts_fops
  fops tasklet_module = tasklet_module_fops
  fops hrtimer_module = hrtimer_module_fops
  fops timer_module = timer_module_fops
  fops wait_queue_module = wait_queue_module_fops
  fops own_workqueues = own_workqueues_fops
  fops workqueues_module = workqueues_module_fops
  fops workqueues_on_cpu = workqueues_on_cpu_fops
