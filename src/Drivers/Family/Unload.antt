-- ===== src/Drivers/Family/Unload.antt =====
-- What is left after a module was loaded and unloaded.
use kernel_driver_lab.Prelude.{ℤ, Option, false, is_negative, ◌++◌, ◌≡◌}
use kernel_driver_lab.Ledger.{Run, pure, replay, nothing}
use kernel_driver_lab.Module.{Resource, resource_tagged, give}
use kernel_driver_lab.Drivers.Family.{Driver, exit}
use kernel_driver_lab.Drivers.Family.Left.{remains}

-- The kernel keeps a module whose init function returns no negative number.
abbrev Unloads : Driver → Option Resource → Run Resource ℤ → Type 0
Unloads d o m =
    is_negative m.0 ≡ false
    → replay (nothing Resource) (m.1 ++ (give (exit d) (pure tt)).1) ≡ remains d o
