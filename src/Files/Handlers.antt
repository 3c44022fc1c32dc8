-- ===== src/Files/Handlers.antt =====
-- The handlers of each module: open, write, read and release, as the copies differ in what they log
-- and in what they do besides the copying.
use kernel_driver_lab.Prelude.{
  ℕ, ℤ, pos, efault, einval, not, ltb, ◌==◌, Option, none, some, List, [], ◌∷◌,
}
use kernel_driver_lab.Chardev.{safe_len}
use kernel_driver_lab.Chardev.UserMemory.{Uaccess}
use kernel_driver_lab.Files.{
  opened, released, received, message, begins, here_is, seems_completed, bye, age, marks, id,
  no_task, sending, send_failed, M, ◌>>=◌, ◌>>◌, return, return_if, unless, printk, printk_text,
  terminate, advance, wake_up_interruptible, memory_granted, add_node, log_list, count_read,
  task_to_signal, send_sig_info, set_flag, completion_done, complete, constant_to_user,
  take_message, hand_out, text_ahead,
}

-- `my_open`
unfoldable pub log_open : M ℤ
log_open = do printk opened; return (pos 0)

-- `my_release`
unfoldable pub log_release : M ℤ
log_release = do printk released; return (pos 0)

-- `send_sig_info`, which is asked once; a refusal is only logged.
abbrev pub send : ℕ → M (Unit {0})
send p = do printk sending; taken ← send_sig_info p; unless taken (printk send_failed)

-- The end of signal_module.c's `my_write`: IRQ_HANDLED, which is 1, if nobody is to be signalled.
abbrev pub signal_task : ℕ → Option ℕ → M ℤ
signal_task n none = do printk no_task; return (pos 1)
signal_task n (some p) = do send p; printk_text message; return (pos n)

module _ (k : Uaccess) where
  -- `my_write` of most modules, with two lines in the log
  unfoldable pub log_write : List ℕ → ℕ → M ℤ
  unfolding take_message
  log_write buf len = do
    n ← take_message k buf len
    printk (received n)
    terminate (safe_len n)
    printk_text message
    return (pos n)

  -- `my_write` of sec_signal_module.c, hrtimer_module.c and timer_module.c
  unfoldable pub short_write : List ℕ → ℕ → M ℤ
  unfolding take_message
  short_write buf len = do
    n ← take_message k buf len
    terminate (safe_len n)
    printk_text message
    return (pos n)

  -- `my_write` of linked_list.c and tasklet_module.c
  unfoldable pub list_write : List ℕ → ℕ → M ℤ
  unfolding take_message
  list_write buf len = do
    n ← take_message k buf len
    terminate (safe_len n)
    granted ← memory_granted
    return_if (not granted) einval
    add_node
    printk_text message
    return (pos n)

  -- `my_write` of custom_slab_cache.c
  unfoldable pub slab_write : List ℕ → ℕ → M ℤ
  unfolding take_message
  slab_write buf len = do
    n ← take_message k buf len
    printk (received n)
    terminate (safe_len n)
    printk_text message
    granted ← memory_granted
    return_if (not granted) efault
    printk (age 23)
    printk (marks 66)
    printk (id 63)
    return (pos n)

  -- `my_write` of signal_module.c
  unfoldable pub signal_write : List ℕ → ℕ → M ℤ
  unfolding take_message
  signal_write buf len = do
    n ← take_message k buf len
    terminate (safe_len n)
    target ← task_to_signal
    signal_task n target

  -- `my_read` of most modules
  unfoldable pub plain_read : M ℤ
  unfolding text_ahead hand_out
  plain_read = do length ← text_ahead; hand_out k length; return (pos length)

  -- `my_read` of export_symbol.c and of the two modules of k_mutex_module-12
  unfoldable pub bye_read : M ℤ
  unfolding text_ahead hand_out
  bye_read = do length ← text_ahead; hand_out k length; printk bye; return (pos length)

  -- `my_read` of export_symbol_2.c
  unfoldable pub counting_read : M ℤ
  unfolding text_ahead hand_out
  counting_read = do
    length ← text_ahead
    hand_out k length
    count_read
    printk bye
    return (pos length)

  -- `my_read` of custom_slab_cache.c and procfs_module.c
  unfoldable pub here_read : M ℤ
  unfolding text_ahead hand_out
  here_read = do
    length ← text_ahead
    hand_out k length
    printk begins
    printk_text here_is
    printk bye
    return (pos length)

  -- `my_read` of prototype_example.c
  unfoldable pub waking_read : M ℤ
  unfolding text_ahead hand_out
  waking_read = do
    length ← text_ahead
    hand_out k length
    set_flag 1
    wake_up_interruptible
    return (pos length)

  -- `my_read` of wait_queue_module.c
  unfoldable pub wait_queue_read : M ℤ
  unfolding text_ahead hand_out
  wait_queue_read = do
    length ← text_ahead
    hand_out k length
    set_flag 1
    wake_up_interruptible
    printk bye
    return (pos length)

  -- `my_read` of completion_module.c
  unfoldable pub completion_read : M ℤ
  unfolding text_ahead hand_out
  completion_read = do
    length ← text_ahead
    hand_out k length
    set_flag 1
    finished ← completion_done
    unless finished (do printk seems_completed; complete)
    printk bye
    return (pos length)

  -- " NO DATA \n"
  abbrev pub backupdata : List ℕ
  backupdata = 32 ∷ 78 ∷ 79 ∷ 32 ∷ 68 ∷ 65 ∷ 84 ∷ 65 ∷ 32 ∷ 10 ∷ []

  -- The branch under `length < 0`, where `length` is a size_t
  abbrev pub no_data : ℕ → M (Unit {0})
  no_data length = unless (not (ltb length 0)) (do
    left ← constant_to_user k backupdata 10
    return_if (not (left == 0)) efault
    advance 10
    return (pos 10))

  -- `my_read` of the modules of k_signal_module-19 and k_timer_module-20
  unfoldable pub begin_read : M ℤ
  unfolding text_ahead hand_out
  begin_read = do
    length ← text_ahead
    printk begins
    no_data length
    hand_out k length
    return (pos length)

  -- `my_read` of linked_list.c and tasklet_module.c
  unfoldable pub list_read : M ℤ
  unfolding text_ahead hand_out
  list_read = do
    length ← text_ahead
    printk begins
    log_list
    no_data length
    hand_out k length
    return (pos length)
