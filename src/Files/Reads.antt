-- ===== src/Files/Reads.antt =====
-- Each kind of `my_read` does what the plain character device does.
use kernel_driver_lab.Prelude.{
  ℕ, ◌≡◌, refl, ℤ, pos, Bool, true, false, not, ltb, ◌==◌, [], ◌∷◌, ◌++◌, arith,
}
use kernel_driver_lab.Chardev.UserMemory.{Uaccess}
use kernel_driver_lab.LinkedList.{log_nodes}
use kernel_driver_lab.Files.{
  begins, here_is, bye, seems_completed, State, next, ◌>>=◌, ◌>>◌, nothing, return, unless, printk,
  printk_text, log_list, node_lines, count_read, set_flag, wake_up_interruptible, completion_done,
  complete,
}
use kernel_driver_lab.Files.Refines.{logs_text, Ends, ReadsAs, AsHanded, reads_as}
use kernel_driver_lab.Files.Handlers.{
  plain_read, bye_read, counting_read, here_read, waking_read, wait_queue_read, completion_read,
  begin_read, list_read, no_data,
}

completed_as :
    (s : State) (n : ℕ) (finished : Bool)
    → Ends
        ((do
          unless finished (do printk seems_completed; complete)
          printk bye
          return {A = ℤ} (pos n))
          s)
        (AsHanded s n)
completed_as s n true = (refl, refl, refl, refl)
completed_as s n false = (refl, refl, refl, refl)

-- No length is below 0.
never_below : (n : ℕ) → not (ltb n 0) ≡ true
never_below n = ground arith

no_data_lem : (k : Uaccess) (n : ℕ) (s : State) → no_data k n s ≡ next tt s
no_data_lem k n s = rw (never_below n, no_data) refl

module _ (k : Uaccess) where
  pub plain_read-ReadsAs : ReadsAs k (plain_read k)
  unfolding plain_read
  plain_read-ReadsAs =
      reads_as k (λ _. nothing) (λ n. return (pos n)) (λ n s. (s.log, refl))
        (λ s n e. (refl, refl, refl, refl))

  pub bye_read-ReadsAs : ReadsAs k (bye_read k)
  unfolding bye_read
  bye_read-ReadsAs =
      reads_as k (λ _. nothing) (λ n. do printk bye; return (pos n)) (λ n s. (s.log, refl))
        (λ s n e. (refl, refl, refl, refl))

  pub counting_read-ReadsAs : ReadsAs k (counting_read k)
  unfolding counting_read
  counting_read-ReadsAs =
      reads_as k (λ _. nothing) (λ n. do count_read; printk bye; return (pos n))
        (λ n s. (s.log, refl)) (λ s n e. (refl, refl, refl, refl))

  pub waking_read-ReadsAs : ReadsAs k (waking_read k)
  unfolding waking_read
  waking_read-ReadsAs =
      reads_as k (λ _. nothing) (λ n. do set_flag 1; wake_up_interruptible; return (pos n))
        (λ n s. (s.log, refl)) (λ s n e. (refl, refl, refl, refl))

  pub wait_queue_read-ReadsAs : ReadsAs k (wait_queue_read k)
  unfolding wait_queue_read
  wait_queue_read-ReadsAs =
      reads_as k (λ _. nothing)
        (λ n. do set_flag 1; wake_up_interruptible; printk bye; return (pos n))
        (λ n s. (s.log, refl)) (λ s n e. (refl, refl, refl, refl))

  pub here_read-ReadsAs : ReadsAs k (here_read k)
  unfolding here_read
  here_read-ReadsAs =
      reads_as k (λ _. nothing)
        (λ n. do printk begins; printk_text here_is; printk bye; return (pos n))
        (λ n s. (s.log, refl))
        (λ s n e.
          logs_text (AsHanded s n) here_is (do printk bye; return (pos n))
            (record s { log = s.log ++ (begins ∷ []) }) e (refl, refl, refl, refl))

  pub completion_read-ReadsAs : ReadsAs k (completion_read k)
  unfolding completion_read
  completion_read-ReadsAs =
      reads_as k (λ _. nothing)
        (λ n. do
          set_flag 1
          finished ← completion_done
          unless finished (do printk seems_completed; complete)
          printk bye
          return (pos n))
        (λ n s. (s.log, refl))
        (λ s n e. completed_as (record s { wait_flag = 1 }) n (not (s.done == 0)))

  pub begin_read-ReadsAs : ReadsAs k (begin_read k)
  unfolding begin_read
  begin_read-ReadsAs =
      reads_as k (λ n. do printk begins; no_data k n) (λ n. return (pos n))
        (λ n s.
          (s.log ++ (begins ∷ []), no_data_lem k n (record s { log = s.log ++ (begins ∷ []) })))
        (λ s n e. (refl, refl, refl, refl))

  pub list_read-ReadsAs : ReadsAs k (list_read k)
  unfolding list_read
  list_read-ReadsAs =
      reads_as k (λ n. do printk begins; log_list; no_data k n) (λ n. return (pos n))
        (λ n s.
          let log = (s.log ++ (begins ∷ [])) ++ node_lines (log_nodes 0 s.nodes) in
          (log, no_data_lem k n (record s { log = log })))
        (λ s n e. (refl, refl, refl, refl))
