-- ===== src/Export/Tests.antt =====
-- The theorem on the exported counter at concrete reads.
use kernel_driver_lab.Prelude.{ℕ, ◌≡◌, List, [], ◌∷◌, replicate, refl}
use kernel_driver_lab.Chardev
use kernel_driver_lab.Chardev.UserMemory.{whole_memory}
use kernel_driver_lab.Export.Reads.{Read, deliveries}

abbrev hello : List ℕ
hello = 72 ∷ 105 ∷ 0 ∷ []

-- One read from the start, one at the end, one into memory that is too short
abbrev reads : List Read
reads =
    record { buf = replicate 4 9; len = 4; offset = 0 }
    ∷ record { buf = replicate 4 9; len = 4; offset = 2 }
    ∷ record { buf = 9 ∷ []; len = 4; offset = 0 }
    ∷ []

deliveries_test : deliveries whole_memory hello reads ≡ 1
unfolding whole_memory Chardev.my_read
deliveries_test = refl
