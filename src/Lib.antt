-- ===== src/Lib.antt =====
-- Kernel_driver_lab: a set of small Linux kernel modules, and what is proved of them.
--
-- The repository is one directory per module. Most modules repeat a template: a character device with
-- a static buffer of 1024 bytes (my_write, my_read), an init function that registers a device number,
-- a character device, a class, a device and what the module shows of its own, with goto labels that
-- undo the registrations on failure, and an exit function. The largest module is a USB storage driver.
-- The modules are loaded apart from one another and share no state, but for the counter that
-- export_symbol.c exports; inside a module the file operations, the threads, the interrupts and the
-- completion handlers share its variables.
--
-- Files, with the code that each is about:
--   Drivers      the init and exit functions of 32 modules: `Sysfs` those with an attribute in sysfs,
--                `Threads` those whose threads stand behind the device alone, `Plain` the rest, among
--                them procfs, sysfs, slab cache, vmalloc, kmalloc, ioctl, basic and misc device;
--                `Family` is all of them as one family, with the tables of what each leaves behind.
--   Chardev      k_spinlocks_module-15/spinlock_module.c: my_write and my_read. `UserMemory` holds the
--                laws of copy_from_user and copy_to_user, a parameter of every module that copies.
--                `Concurrent` is the same two functions as a relation of single accesses to the buffer,
--                for calls that overlap.
--   Files        my_open, my_write, my_read and my_release of the 22 modules that repeat the device: a
--                do block for each kind of handler (`Handlers`), the table of the modules (`Table`),
--                and the calls of many processes, one at a time (`Serving`).
--   Attribute    sysfs_show and sysfs_store of kobj_value, in ten modules.
--   Spinlock     the same file: thread_function and thread_function1 as a step relation on a shared
--                memory, one access a step.
--   LinkedList   k_linked_list-17/linked_list.c: the list that grows by a node with each write; `Memory`
--                is the allocation of the nodes and the loop of hello_exit that frees them, which
--                k_tasklet-18/tasklet_module.c repeats.
--   Kthread      k_linked_list-17/linked_list.c: thread_function, and kthread_stop in hello_exit.
--   Race         k_mutex_module-12/without_mutex_module.c: two threads that count with no lock.
--   RwLock       k_spinlocks_module-15/rwspinlock_module.c: a writer and two readers under a lock.
--   Completion   k_completion_module-21/completion_module.c: a thread that reads wake and the unloading
--                is to end.
--   Atomic       k_atomic_variables-23/atomic_variable.c: two threads that count atomically.
--   Seqlock      k_seqlock_module-24/seqlock_module.c: a writer, and a reader that repeats.
--   IrqSpinlock  k_spinlocks_module-15/spinlock_with_interrupts.c: a thread that disables interrupts,
--                and a timer that interrupts it, on its processor or on another one.
--   Timer        k_timer_module-20: timers that arm themselves again, and their deletion.
--   WaitQueue    k_wait_queues-10/wait_queue_module.c: a thread that counts the reads that wake it.
--   Mutex        k_mutex_module-12/mutex_module.c: two threads that count under a mutex.
--   Deferred     k_workqueues_module-16, k_tasklet-18 and k_linked_list-17: interrupts that put work off,
--                and the exit functions; `Order` and `Harm` are on every order of their calls.
--   Vmalloc      k_vmalloc-06/vmalloc.c: a buffer that each write allocates anew.
--   Procfs       k_procfs_module-08/procfs_module.c: a file whose buffer each write frees and allocates.
--   Kmalloc      k_malloc_05/kmalloc.c: a write into a block that is freed at once.
--   Slab         k_custom_slab_cache-09: a write that allocates an object and frees it.
--   Ioctl        k_ioctl_module-04/ioctl.c: an integer that is stored and read.
--   Export       k_export_symbol-22: a counter that the read of another module advances.
--   Signal       k_signal_module-19: a process that registers, and the writes that send it a signal;
--                `Application` is ioctl_userspace_file.c and sec_userland_signal.c beside the modules.
--   TempWatch    k_temp_watch-13/temp_watch.c: a thread that measures, three files in /proc (wait,
--                value, threshold), a device, and the flag by which they wake each other.
--   Gpio         k_gpio_basics-28/gpio.c: a GPIO line behind a character device.
--   Usb          k_usb_module-26/usb.c. `Wrapper` is struct command_block_wrapper with the SCSI macros,
--                `Device` struct my_usb_storage, `Alloc` usb_alloc_buffer_and_urb, `Clear`
--                usb_clear_buffer_and_urb and usb_disconnect, `Probe` usb_probe, `Handlers`
--                init_usb_protocols, cbw_callback, data_callback and csw_callback.
--   UsbHost      k_usb_module-26/usbv1.c, the same device as a host of the SCSI layer: `Commands` is
--                queue_command, cbw_callback, data_callback and csw_callback; `Session` the order in which
--                they are called for one command, `Memory` usb_probe and usb_disconnect, with
--                allocate_usb_resource and deallocate_usb_resource, `Recovery` usb_eh_abort and
--                the resets.
--   Ledger       no code: the calls that obtain and release resources, as a trace, and its replay,
--                which tells what is held at the end and what was released without being held.
--   Module       no code: the resources that the init functions register, and the answers of the kernel;
--                `Loading` is the shape of an init function and what holds on each of its paths.
--   Prelude      no code: names of the libraries, lists, errno values, comparison of tagged resources.
--
-- State and calls. A module's variables are a record; an operation takes the record and returns it with
-- its result. The kernel's answers (whether an allocation is granted, what a registration returns, what
-- a copy leaves uncopied) are arguments, so a theorem holds for all answers. A function that allocates or
-- registers returns its trace beside its result. A goto label is a function; a label that falls through
-- calls the next one. An operation that sleeps for ever on the state it finds, or that reads through
-- NULL or past its memory, returns none. Threads are a relation of single steps on their common state,
-- and a theorem on all orders is by induction on the steps.
--
-- Numbers are natural; a 32-bit counter and the 32-bit and 8-bit fields of a wrapper wrap where the
-- source stores them. A result is an integer, negative for an errno. The lengths that a caller passes
-- are not bounded. The loops of the source are the search for endpoints, which is recursion on
-- the list, and the thread loops, which are steps without a bound. The run of a USB session has fuel
-- for three transfers, which is the length of the longest one.
--
-- The handlers of `Files` are programs in a monad of state with an early return and a fault, which is
-- a text that is read past its array. In `Serving` the other variables of a module, what `kmalloc`
-- answers among them, may take any values between the calls, as its threads or other modules set them;
-- the calls themselves do not overlap. In `Chardev.Concurrent` any number of calls overlap, and the
-- length that the writers pass is bounded by a parameter, which the drivers set to 1024; a store, a
-- measuring or a handing out past the array is an overrun.
--
-- What the kernel promises is taken from its documentation: kthread_run never returns NULL, a command
-- of the SCSI layer without data has no list of pages, and a pointer to a task may outlive the process
-- if no reference to it is taken, so that no theorem says what sending a signal through it does.
--
-- Not modelled: interrupt handlers and work items that only log, open and release of the files in
-- /proc and of temp_watch.c, which only log, the callbacks of sysfs_module.c, which only log,
-- usb_pre_reset and usb_post_reset of usbv1.c, k_fpu_module_27, Makefiles, and the ioctl program of
-- user space. The log is modelled in `Files` alone. Test_usb_driver.c is an earlier state of usb.c;
-- waitqueue.c calls what exists nowhere. prototype_example.c does not compile; its init and exit
-- function and its file operations are modelled as they are written. The init functions pass over what
-- cannot fail in the model: cdev_init, the calls that set up a lock or a queue, and the text of the
-- names.
pub mod Prelude
pub mod Ledger
pub mod Module
pub mod Drivers
pub mod Attribute
pub mod Chardev
pub mod Files
pub mod Spinlock
pub mod Kthread
pub mod LinkedList
pub mod Race
pub mod RwLock
pub mod Completion
pub mod Mutex
pub mod Atomic
pub mod Seqlock
pub mod IrqSpinlock
pub mod Timer
pub mod WaitQueue
pub mod Deferred
pub mod Vmalloc
pub mod Procfs
pub mod Kmalloc
pub mod Ioctl
pub mod Slab
pub mod Export
pub mod Signal
pub mod TempWatch
pub mod Gpio
pub mod Usb
pub mod UsbHost
