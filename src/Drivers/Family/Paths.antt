-- ===== src/Drivers/Family/Paths.antt =====
-- What every path of an init function returns and leaves registered.
use kernel_driver_lab.Prelude.{ℤ, pos, Option, some, [], ◌≡◌, arith, Bool, true, false}
use kernel_driver_lab.Ledger.{Run, replay, nothing}
use kernel_driver_lab.Module.{
  Resource, thread_one, thread_two, thread_three, valid, resource_tagged,
}
use kernel_driver_lab.Module.Loading.{AllRead, noticed, Paths, setup_paths}
use kernel_driver_lab.Drivers.{Answers}
use kernel_driver_lab.Drivers.Family.{Driver, calls, load}
use kernel_driver_lab.Drivers.Family.Left.{expected_result, left}

-- The result and the ledger are those of the tables.
abbrev IsExpected : Driver → Answers → Option Resource → Run Resource ℤ → Type 0
IsExpected d k o m = (m.0 ≡ expected_result d k o) × (replay (nothing Resource) m.1 ≡ left d o)

each_path : (d : Driver) (k : Answers) → Paths (pos 0, []) (IsExpected d k) (calls d k)
each_path d k = ground arith

-- Every thread starts, for what `kthread_run` and `kthread_create` return is never NULL, and what it is
-- for a failure is read as a thread.
pub record ThreadsStart (k : Answers) : Type 0 where
  pub first : k.first_thread ≡ valid
  pub second : k.second_thread ≡ valid
  pub third : k.third_thread ≡ valid

-- Not one of the threads
abbrev pub is_thread : Option Resource → Bool
is_thread (some thread_one) = true
is_thread (some thread_two) = true
is_thread (some thread_three) = true
is_thread _ = false

no_thread : (d : Driver) (k : Answers) → ThreadsStart k → is_thread (noticed (calls d k)) ≡ false
no_thread d k t = ground (arith, t.first, t.second, t.third)

-- For every module of the family, where every thread starts and every other answer is what the init
-- function takes it for: no thread is taken for refused; and the result, what stays registered and what
-- is wrongly given back are those that the tables give for the first call that is refused, or for none.
pub loading_paths :
    (d : Driver) (k : Answers)
    → ThreadsStart k
    → AllRead (calls d k)
    → let refused = noticed (calls d k) in
      (is_thread refused ≡ false)
      × ((load d k).0 ≡ expected_result d k refused)
      × (replay (nothing Resource) (load d k).1 ≡ left d refused)
loading_paths d k t a =
    let (result, kept) = setup_paths (pos 0, []) (IsExpected d k) (calls d k) a (each_path d k) in
    (no_thread d k t, result, kept)
