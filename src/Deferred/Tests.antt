-- ===== src/Deferred/Tests.antt =====
-- The theorem on deferred work at a concrete exit function.
use kernel_driver_lab.Deferred.{start}
use kernel_driver_lab.Deferred.Harm.{Harms}
use kernel_driver_lab.Deferred.Modules.{exit_calls, own_workqueues, each_harmed}

each_harmed_example : Harms (start (exit_calls own_workqueues))
each_harmed_example = each_harmed own_workqueues
