-- ===== src/Gpio/Setup/Paths.antt =====
-- What every path of the module's init function leaves registered.
use kernel_driver_lab.Prelude.{
  ℤ, pos, is_negative, is_nonzero, not, false, if◌then◌else◌, Option, none, some, [], ◌∷◌, ◌++◌,
  ◌≡◌, arith, refl, sym, ap, ◌∙◌, Bool-cases, inl, inr,
}
use kernel_driver_lab.Ledger.{Ledger, replay, replay-append, nothing}
use kernel_driver_lab.Module.{
  Resource, region, cdev, device_class, device, gpio_line, gpio_export, resource_tagged, is_err,
  is_null, is_valid, failure,
}
use kernel_driver_lab.Gpio.Setup.{Answers, gpio_init, gpio_exit}

-- The first resource that cannot be had; the four calls for the line count as one.
abbrev pub noticed : Answers → Option Resource
noticed k =
    if is_negative k.alloc_chrdev_region
    then some region
    else if is_negative k.cdev_add
    then some cdev
    else if is_err k.class_create
    then some device_class
    else if is_err k.device_create
    then some device
    else if not k.gpio_is_valid
    then some gpio_line
    else if is_nonzero k.gpio_request
    then some gpio_line
    else if is_null k.gpio_to_desc
    then some gpio_line
    else if is_nonzero k.gpiod_direction_output
    then some gpio_line
    else none

abbrev pub expected_result : Option Resource → ℤ
expected_result none = pos 0
expected_result (some _) = failure

-- Each of the first four failures gives back the very resource that was refused.
abbrev pub expected_ledger : Option Resource → Ledger Resource
expected_ledger none = record {
  held = gpio_export ∷ gpio_line ∷ device ∷ device_class ∷ cdev ∷ region ∷ [];
  faults = [];
}
expected_ledger (some gpio_line) = nothing Resource
expected_ledger (some r) = record { held = []; faults = r ∷ [] }

-- Answers as the module reads them: a class or a device is an error or valid, and the export, which
-- is not tested, succeeds.
pub record AsRead (k : Answers) : Type 0 where
  pub of_class : is_valid k.class_create ≡ not (is_err k.class_create)
  pub of_device : is_valid k.device_create ≡ not (is_err k.device_create)
  pub of_export : is_nonzero k.gpiod_export ≡ false

-- For answers as the module reads them (AsRead), the result is 0 if every call is granted and -1
-- else; after a failure nothing stays registered, and what is wrongly given back is the resource
-- that was refused, if that is the number, the character device, the class or the device, and
-- nothing if it is the line.
pub gpio_paths :
    (k : Answers)
    → AsRead k
    → ((gpio_init k).0 ≡ expected_result (noticed k))
      × (replay (nothing Resource) (gpio_init k).1 ≡ expected_ledger (noticed k))
unfolding gpio_init
gpio_paths k a =
    rw (a.of_class, a.of_device, a.of_export)
      (elim (Bool-cases (is_negative k.alloc_chrdev_region)) [
        | inl e ↦ rw e (refl, refl)
        | inr e ↦ rw e (elim (Bool-cases (is_negative k.cdev_add)) [
          | inl e ↦ rw e (refl, refl)
          | inr e ↦ rw e (elim (Bool-cases (is_err k.class_create)) [
            | inl e ↦ rw e (refl, refl)
            | inr e ↦ rw e (elim (Bool-cases (is_err k.device_create)) [
              | inl e ↦ rw e (refl, refl)
              | inr e ↦ rw e (elim (Bool-cases (not k.gpio_is_valid)) [
                | inl e ↦ rw e (refl, refl)
                | inr e ↦ rw e (elim (Bool-cases (is_nonzero k.gpio_request)) [
                  | inl e ↦ rw e (refl, refl)
                  | inr e ↦ rw e (elim (Bool-cases (is_null k.gpio_to_desc)) [
                    | inl e ↦ rw e (refl, refl)
                    | inr e ↦ rw e (elim (Bool-cases (is_nonzero k.gpiod_direction_output)) [
                      | inl e ↦ rw e (refl, refl)
                      | inr e ↦ rw e ((refl, refl))
                    ])
                  ])
                ])
              ])
            ])
          ])
        ])
      ])

expected-zero : (k : Answers) → expected_result (noticed k) ≡ pos 0 → noticed k ≡ none
expected-zero k h = ground arith

-- A module that loads with answers as it reads them (AsRead), and is then unloaded, has given back
-- everything that it registered, and has freed its line twice.
pub gpio_unload :
    (k : Answers)
    → AsRead k
    → (gpio_init k).0 ≡ pos 0
    → replay (nothing Resource) ((gpio_init k).1 ++ gpio_exit.1)
      ≡ record { held = []; faults = gpio_line ∷ [] }
unfolding gpio_exit
gpio_unload k a h =
    let quiet : noticed k ≡ none = expected-zero k (sym (gpio_paths k a).0 ∙ h) in
    replay-append (nothing Resource) (gpio_init k).1 gpio_exit.1
    ∙ ap (λ l. replay l gpio_exit.1) ((gpio_paths k a).1 ∙ ap expected_ledger quiet)
