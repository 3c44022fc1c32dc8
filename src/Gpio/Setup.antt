-- ===== src/Gpio/Setup.antt =====
-- `gpio_init` and `gpio_exit` of k_gpio_basics-28/gpio.c. Each label of the clean-up falls through to
-- the labels below it.
pub mod Paths
use kernel_driver_lab.Prelude.{ℤ, pos, is_negative, is_nonzero, not, Bool, if◌then◌else◌, [], ◌∷◌}
use kernel_driver_lab.Ledger.{Run, pure}
use kernel_driver_lab.Module.{
  Resource, region, cdev, device_class, device, gpio_line, gpio_export, Answer, is_err, is_null,
  is_valid, ask, give, failure,
}

-- What the kernel answers to the calls of `gpio_init`.
pub record Answers : Type 0 where
  pub alloc_chrdev_region : ℤ
  pub cdev_add : ℤ
  pub class_create : Answer
  pub device_create : Answer
  pub gpio_is_valid : Bool
  pub gpio_request : ℤ
  pub gpio_to_desc : Answer
  pub gpiod_direction_output : ℤ
  pub gpiod_export : ℤ

r_unreg : Run Resource ℤ
r_unreg = give (region ∷ []) (pure failure)

r_cdev : Run Resource ℤ
r_cdev = give (cdev ∷ []) r_unreg

r_class : Run Resource ℤ
r_class = give (device_class ∷ []) r_cdev

r_device : Run Resource ℤ
r_device = give (device ∷ []) r_class

r_gpio : Run Resource ℤ
r_gpio = give (gpio_line ∷ []) r_device

-- The export is not tested.
unfoldable pub gpio_init : Answers → Run Resource ℤ
unfolding r_unreg r_cdev r_class r_device r_gpio
gpio_init k = ask region (not (is_negative k.alloc_chrdev_region)) (
    if is_negative k.alloc_chrdev_region
    then r_unreg
    else ask cdev (not (is_negative k.cdev_add)) (
        if is_negative k.cdev_add
        then r_cdev
        else ask device_class (is_valid k.class_create) (
            if is_err k.class_create
            then r_class
            else ask device (is_valid k.device_create) (
                if is_err k.device_create
                then r_device
                else if not k.gpio_is_valid
                then r_device
                else ask gpio_line (not (is_nonzero k.gpio_request)) (
                    if is_nonzero k.gpio_request
                    then r_device
                    else if is_null k.gpio_to_desc
                    then r_gpio
                    else if is_nonzero k.gpiod_direction_output
                    then r_gpio
                    else ask gpio_export (not (is_nonzero k.gpiod_export)) (pure (pos 0)))))))

-- `gpiod_put` and `gpio_free` both free the line.
unfoldable pub gpio_exit : Run Resource (Unit {0})
gpio_exit =
    give (gpio_export ∷ gpio_line ∷ gpio_line ∷ device ∷ device_class ∷ cdev ∷ region ∷ [])
      (pure tt)
