-- ===== src/Files/Every.antt =====
-- The handlers of every module of the table against the plain character device.
use kernel_driver_lab.Chardev.UserMemory.{Uaccess}
use kernel_driver_lab.Files.Table.{
  Device, fops, completion_module, custom_slab_cache, export_symbol, export_symbol_2, linked_list,
  mutex_module, without_mutex_module, procfs_module, prototype_example, seqlock_module,
  sec_signal_module, signal_module, rwspinlock_module, spinlock_module, spinlock_with_interrupts,
  tasklet_module, hrtimer_module, timer_module, wait_queue_module, own_workqueues,
  workqueues_module, workqueues_on_cpu,
}
use kernel_driver_lab.Files.Refines.{Answer, WritesAs, ReadsAs}
use kernel_driver_lab.Files.Writes.{
  answer_count, answer_node, answer_object, answer_signal, list_write-WritesAs, log_write-WritesAs,
  short_write-WritesAs, signal_write-WritesAs, slab_write-WritesAs,
}
use kernel_driver_lab.Files.Reads.{
  begin_read-ReadsAs, bye_read-ReadsAs, completion_read-ReadsAs, counting_read-ReadsAs,
  here_read-ReadsAs, list_read-ReadsAs, plain_read-ReadsAs, wait_queue_read-ReadsAs,
  waking_read-ReadsAs,
}

-- What each module's write answers where the plain device returns a count
abbrev pub write_answer : Device → Answer
write_answer completion_module = answer_count
write_answer custom_slab_cache = answer_object
write_answer export_symbol = answer_count
write_answer export_symbol_2 = answer_count
write_answer linked_list = answer_node
write_answer mutex_module = answer_count
write_answer without_mutex_module = answer_count
write_answer procfs_module = answer_count
write_answer prototype_example = answer_count
write_answer seqlock_module = answer_count
write_answer sec_signal_module = answer_count
write_answer signal_module = answer_signal
write_answer rwspinlock_module = answer_count
write_answer spinlock_module = answer_count
write_answer spinlock_with_interrupts = answer_count
write_answer tasklet_module = answer_node
write_answer hrtimer_module = answer_count
write_answer timer_module = answer_count
write_answer wait_queue_module = answer_count
write_answer own_workqueues = answer_count
write_answer workqueues_module = answer_count
write_answer workqueues_on_cpu = answer_count

module _ (k : Uaccess) where
  -- Each module's write and read do what those of the plain device do.
  pub my_write-WritesAs : (d : Device) → WritesAs k (write_answer d) ((fops k d).my_write)
  my_write-WritesAs completion_module = log_write-WritesAs k
  my_write-WritesAs custom_slab_cache = slab_write-WritesAs k
  my_write-WritesAs export_symbol = log_write-WritesAs k
  my_write-WritesAs export_symbol_2 = log_write-WritesAs k
  my_write-WritesAs linked_list = list_write-WritesAs k
  my_write-WritesAs mutex_module = log_write-WritesAs k
  my_write-WritesAs without_mutex_module = log_write-WritesAs k
  my_write-WritesAs procfs_module = log_write-WritesAs k
  my_write-WritesAs prototype_example = log_write-WritesAs k
  my_write-WritesAs seqlock_module = log_write-WritesAs k
  my_write-WritesAs sec_signal_module = short_write-WritesAs k
  my_write-WritesAs signal_module = signal_write-WritesAs k
  my_write-WritesAs rwspinlock_module = log_write-WritesAs k
  my_write-WritesAs spinlock_module = log_write-WritesAs k
  my_write-WritesAs spinlock_with_interrupts = log_write-WritesAs k
  my_write-WritesAs tasklet_module = list_write-WritesAs k
  my_write-WritesAs hrtimer_module = short_write-WritesAs k
  my_write-WritesAs timer_module = short_write-WritesAs k
  my_write-WritesAs wait_queue_module = log_write-WritesAs k
  my_write-WritesAs own_workqueues = log_write-WritesAs k
  my_write-WritesAs workqueues_module = log_write-WritesAs k
  my_write-WritesAs workqueues_on_cpu = log_write-WritesAs k

  pub my_read-ReadsAs : (d : Device) → ReadsAs k ((fops k d).my_read)
  my_read-ReadsAs completion_module = completion_read-ReadsAs k
  my_read-ReadsAs custom_slab_cache = here_read-ReadsAs k
  my_read-ReadsAs export_symbol = bye_read-ReadsAs k
  my_read-ReadsAs export_symbol_2 = counting_read-ReadsAs k
  my_read-ReadsAs linked_list = list_read-ReadsAs k
  my_read-ReadsAs mutex_module = bye_read-ReadsAs k
  my_read-ReadsAs without_mutex_module = bye_read-ReadsAs k
  my_read-ReadsAs procfs_module = here_read-ReadsAs k
  my_read-ReadsAs prototype_example = waking_read-ReadsAs k
  my_read-ReadsAs seqlock_module = plain_read-ReadsAs k
  my_read-ReadsAs sec_signal_module = begin_read-ReadsAs k
  my_read-ReadsAs signal_module = begin_read-ReadsAs k
  my_read-ReadsAs rwspinlock_module = plain_read-ReadsAs k
  my_read-ReadsAs spinlock_module = plain_read-ReadsAs k
  my_read-ReadsAs spinlock_with_interrupts = plain_read-ReadsAs k
  my_read-ReadsAs tasklet_module = list_read-ReadsAs k
  my_read-ReadsAs hrtimer_module = begin_read-ReadsAs k
  my_read-ReadsAs timer_module = begin_read-ReadsAs k
  my_read-ReadsAs wait_queue_module = wait_queue_read-ReadsAs k
  my_read-ReadsAs own_workqueues = plain_read-ReadsAs k
  my_read-ReadsAs workqueues_module = plain_read-ReadsAs k
  my_read-ReadsAs workqueues_on_cpu = plain_read-ReadsAs k
