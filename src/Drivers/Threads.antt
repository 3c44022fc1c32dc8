-- ===== src/Drivers/Threads.antt =====
-- The modules that start threads behind their device.
use kernel_driver_lab.Prelude.{pos, List, [], ◌∷◌}
use kernel_driver_lab.Ledger.{pure}
use kernel_driver_lab.Module.{
  Resource, region, cdev, device_class, device, thread_one, thread_two, proc_dir, proc_wait,
  proc_value, proc_threshold, is_valid, failure,
}
use kernel_driver_lab.Module.Loading.{Call, if_null, untested}
use kernel_driver_lab.Drivers.{Answers, r_class, opening}

-- `kthread_module_init` and `kthread_module_exit` of k_thread_module-11/kthread_module.c
abbrev pub kthread_init : Answers → List Call
kthread_init k = opening (pure failure) k (if_null thread_one k.first_thread (pure failure) ∷ [])

abbrev pub kthread_exit : List Resource
kthread_exit = thread_one ∷ device ∷ device_class ∷ cdev ∷ region ∷ []

-- `kthread_module_init` and `kthread_module_exit` of k_atomic_variables-23/atomic_variable.c
abbrev pub atomic_init : Answers → List Call
atomic_init k = opening (pure failure) k (
    if_null thread_one k.first_thread (pure failure)
    ∷ untested thread_two (is_valid k.second_thread)
    ∷ [])

abbrev pub atomic_exit : List Resource
atomic_exit = thread_one ∷ thread_two ∷ device ∷ device_class ∷ cdev ∷ region ∷ []

-- `hello_init` and `hello_exit` of k_mutex_module-12/mutex_module.c
abbrev pub mutex_init : Answers → List Call
mutex_init k = opening (pure k.alloc_chrdev_region) k (
    if_null thread_one k.first_thread (pure failure)
    ∷ if_null thread_two k.second_thread (pure failure)
    ∷ [])

abbrev pub mutex_exit : List Resource
mutex_exit = thread_two ∷ thread_one ∷ device ∷ device_class ∷ cdev ∷ region ∷ []

-- `hello_init` and `hello_exit` of k_mutex_module-12/without_mutex_module.c
abbrev pub without_mutex_init : Answers → List Call
without_mutex_init k = opening (pure k.alloc_chrdev_region) k (
    if_null thread_one k.first_thread (pure failure)
    ∷ if_null thread_two k.second_thread (pure failure)
    ∷ [])

abbrev pub without_mutex_exit : List Resource
without_mutex_exit = thread_two ∷ thread_one ∷ device ∷ device_class ∷ cdev ∷ region ∷ []

-- `hello_init` and `hello_exit` of k_wait_queues-10/wait_queue_module.c
abbrev pub wait_queue_init : Answers → List Call
wait_queue_init k =
    opening (pure k.alloc_chrdev_region) k (if_null thread_one k.first_thread (pure failure) ∷ [])

abbrev pub wait_queue_exit : List Resource
wait_queue_exit = device ∷ device_class ∷ cdev ∷ region ∷ []

-- `hello_init` and `hello_exit` of k_completion_module-21/completion_module.c
abbrev pub completion_init : Answers → List Call
completion_init k =
    opening (pure k.alloc_chrdev_region) k (if_null thread_one k.first_thread (pure failure) ∷ [])

abbrev pub completion_exit : List Resource
completion_exit = device ∷ device_class ∷ cdev ∷ region ∷ []

-- `hello_init` and `hello_exit` of k_temp_watch-13/temp_watch.c
abbrev pub temp_watch_init : Answers → List Call
temp_watch_init k = opening (pure k.alloc_chrdev_region) k (
    if_null proc_dir k.proc_mkdir (pure (pos 0))
    ∷ untested proc_wait (is_valid k.proc_create_wait)
    ∷ untested proc_value (is_valid k.proc_create_value)
    ∷ untested proc_threshold (is_valid k.proc_create_threshold)
    ∷ if_null thread_one k.first_thread r_class
    ∷ [])

abbrev pub temp_watch_exit : List Resource
temp_watch_exit =
    thread_one ∷ proc_wait ∷ proc_value ∷ proc_threshold ∷ proc_dir ∷ device ∷ device_class ∷ cdev
    ∷ region ∷ []
