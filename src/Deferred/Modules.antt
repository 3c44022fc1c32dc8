-- ===== src/Deferred/Modules.antt =====
-- The exit functions of the five modules, by their calls that matter to the work.
use kernel_driver_lab.Prelude.{refl, List, [], ◌∷◌}
use kernel_driver_lab.Deferred.{ExitCall, flush_work, destroy_workqueue, free_irq, start}
use kernel_driver_lab.Deferred.Harm.{Harms, disorderly_harmed}

-- `hello_exit` of workqueues_module.c
abbrev pub workqueues_calls : List ExitCall
workqueues_calls = free_irq ∷ []

-- `hello_exit` of workqueues_on_cpu.c
abbrev pub workqueues_on_cpu_calls : List ExitCall
workqueues_on_cpu_calls = flush_work ∷ free_irq ∷ []

-- `hello_exit` of own_workqueues.c
abbrev pub own_workqueues_calls : List ExitCall
own_workqueues_calls = flush_work ∷ destroy_workqueue ∷ free_irq ∷ []

-- `hello_exit` of linked_list.c
abbrev pub linked_list_calls : List ExitCall
linked_list_calls = flush_work ∷ destroy_workqueue ∷ free_irq ∷ []

-- `hello_exit` of tasklet_module.c
abbrev pub tasklet_calls : List ExitCall
tasklet_calls = flush_work ∷ free_irq ∷ []

pub data Deferring : Type 0 where
  workqueues workqueues_on_cpu own_workqueues linked_list tasklet : Deferring

abbrev pub exit_calls : Deferring → List ExitCall
exit_calls workqueues = workqueues_calls
exit_calls workqueues_on_cpu = workqueues_on_cpu_calls
exit_calls own_workqueues = own_workqueues_calls
exit_calls linked_list = linked_list_calls
exit_calls tasklet = tasklet_calls

-- Each of the five modules can be unloaded with its work about to run, or its queue misused.
pub each_harmed : (d : Deferring) → Harms (start (exit_calls d))
each_harmed workqueues = disorderly_harmed workqueues_calls refl
each_harmed workqueues_on_cpu = disorderly_harmed workqueues_on_cpu_calls refl
each_harmed own_workqueues = disorderly_harmed own_workqueues_calls refl
each_harmed linked_list = disorderly_harmed linked_list_calls refl
each_harmed tasklet = disorderly_harmed tasklet_calls refl
