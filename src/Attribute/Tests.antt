-- ===== src/Attribute/Tests.antt =====
-- The attribute with decimal texts of ten digits.
use kernel_driver_lab.Prelude.{
  ℕ, zero, suc, ◌+◌, ◌-◌, ◌*◌, ◌/◌, ◌%◌, ◌^◌, ◌<◌, ◌≡◌, refl, ap, ◌∙◌, Option, none, some, List, [],
  ◌∷◌, ◌++◌, ltb, if◌then◌else◌, arith,
}
use kernel_driver_lab.Attribute.{Format, spinlock_module, kobj_attr}
use kernel_driver_lab.Attribute.Register.{Access, shows, stores, Registers, attribute_register}

abbrev number_in : ℕ → List ℕ → ℕ
number_in acc [] = acc
number_in acc (x ∷ xs) = number_in (acc * 10 + (x - 48)) xs

number_in-append :
    (acc : ℕ) (xs : List ℕ) (x : ℕ)
    → number_in acc (xs ++ (x ∷ [])) ≡ number_in acc xs * 10 + (x - 48)
number_in-append acc [] x = refl
number_in-append acc (y ∷ ys) x = number_in-append (acc * 10 + (y - 48)) ys x

abbrev digits : ℕ → ℕ → List ℕ
digits zero value = []
digits (suc n) value = digits n (value / 10) ++ ((48 + value % 10) ∷ [])

abbrev bound : ℕ → ℕ
bound zero = 1
bound (suc n) = 10 * bound n

number_in-digits : (n value : ℕ) → value < bound n → number_in 0 (digits n value) ≡ value
number_in-digits zero value h = omega arith
number_in-digits (suc n) value h =
    number_in-append 0 (digits n (value / 10)) (48 + value % 10)
    ∙ omega (arith, number_in-digits n (value / 10) (omega arith))

abbrev fitting : ℕ → Option ℕ
fitting value = if ltb value (2 ^ 32) then some value else none

fitting-small : (value : ℕ) {v : ℕ} → fitting value ≡ some v → v < 2 ^ 32
fitting-small value h = ground arith

fitting-some : (value : ℕ) → value < 2 ^ 32 → fitting value ≡ some value
fitting-some value h = ground arith

decimal : Format
decimal = record {
  sprintf = digits 10;
  sscanf = λ text. fitting (number_in 0 text);
  small = λ text h. fitting-small (number_in 0 text) h;
  sscanf-sprintf =
      λ value h. ap fitting (number_in-digits 10 value (omega arith)) ∙ fitting-some value h;
}

-- "42" is stored, and then shown.
abbrev accesses : List Access
accesses = shows ∷ stores (52 ∷ 50 ∷ []) ∷ shows ∷ []

attribute_register_example : Registers decimal accesses (kobj_attr decimal spinlock_module)
attribute_register_example = attribute_register decimal spinlock_module accesses
