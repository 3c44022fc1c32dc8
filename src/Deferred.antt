-- ===== src/Deferred.antt =====
-- The interrupts whose handlers put work off, and the exit functions of their modules:
-- workqueues_module.c, workqueues_on_cpu.c and own_workqueues.c of k_workqueues_module-16,
-- k_tasklet-18/tasklet_module.c and k_linked_list-17/linked_list.c. The work itself only logs.
pub mod Order
pub mod Harm
pub mod Modules
mod Tests
use kernel_driver_lab.Prelude.{◌≡◌, Bool, true, false, not, ◌||◌, if◌then◌else◌, List, [], ◌∷◌}

pub record Shared : Type 0 where
  pub registered : Bool  -- the interrupt's handler
  pub queue : Bool  -- the work queue exists
  pub pending : Bool  -- the work item or the tasklet is queued
  pub misused : Bool  -- work was put on a queue that is destroyed
  pub loaded : Bool  -- the module's code is in memory

-- Where `irq_handler` stands.
pub data HandlerPc : Type 0 where
  quiet : HandlerPc
  entered : HandlerPc

-- Where `workqueue_fn` or `tasklet_fn` stands.
pub data WorkPc : Type 0 where
  idle : WorkPc
  running : WorkPc

-- `irq_handler`, with `schedule_work`, `queue_work` or `tasklet_schedule`
pub data HandlerMove (m : Shared) : HandlerPc → Shared → HandlerPc → Type 0 where
  interrupt : m.registered ≡ true → HandlerMove m quiet m entered
  queue_work :
      HandlerMove m entered
        (record m { pending = m.pending || m.queue; misused = m.misused || not m.queue })
        quiet

-- `workqueue_fn` or `tasklet_fn`
pub data WorkMove (m : Shared) : WorkPc → Shared → WorkPc → Type 0 where
  begin : m.pending ≡ true → WorkMove m idle (record m { pending = false }) running
  finish : WorkMove m running m idle

-- The calls of an exit function that matter to the work.
pub data ExitCall : Type 0 where
  flush_work : ExitCall  -- or `tasklet_kill`
  destroy_workqueue : ExitCall
  free_irq : ExitCall

-- A step of an exit function, with the calls that it has yet to make. `flush_work` and
-- `destroy_workqueue` wait for the work, `free_irq` for the handler.
pub data ExitMove (m : Shared) (h : HandlerPc) (w : WorkPc)
    : List ExitCall → Shared → List ExitCall → Type 0 where
  flush :
      {cs : List ExitCall} → m.pending ≡ false → w ≡ idle → ExitMove m h w (flush_work ∷ cs) m cs
  destroy :
      {cs : List ExitCall}
      → m.pending ≡ false
      → w ≡ idle
      → ExitMove m h w (destroy_workqueue ∷ cs) (record m { queue = false }) cs
  free :
      {cs : List ExitCall}
      → h ≡ quiet
      → ExitMove m h w (free_irq ∷ cs) (record m { registered = false }) cs
  unload : ExitMove m h w [] (record m { loaded = false }) []

pub record System : Type 0 where
  pub mem : Shared
  pub pc_handler : HandlerPc
  pub pc_work : WorkPc
  pub calls : List ExitCall

pub data Step (s : System) : System → Type 0 where
  run_handler :
      {m : Shared} {p : HandlerPc}
      → HandlerMove s.mem s.pc_handler m p
      → Step s (record s { mem = m; pc_handler = p })
  run_work :
      {m : Shared} {p : WorkPc}
      → WorkMove s.mem s.pc_work m p
      → Step s (record s { mem = m; pc_work = p })
  run_exit :
      {m : Shared} {cs : List ExitCall}
      → ExitMove s.mem s.pc_handler s.pc_work s.calls m cs
      → Step s (record s { mem = m; calls = cs })

pub data Steps (s : System) : System → Type 0 where
  here : Steps s s
  later : {t u : System} → Steps s t → Step t u → Steps s u

-- The module is loaded; its exit function will make the calls `cs`.
abbrev pub start : List ExitCall → System
start cs = record {
  mem = record { registered = true; queue = true; pending = false; misused = false; loaded = true };
  pc_handler = quiet;
  pc_work = idle;
  calls = cs;
}

abbrev pub is_running : WorkPc → Bool
is_running idle = false
is_running running = true

-- The module's code will run, or runs, or work was put on a queue that is destroyed.
abbrev pub harmed : System → Bool
harmed s = s.mem.misused || s.mem.pending || is_running s.pc_work
