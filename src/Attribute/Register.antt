-- ===== src/Attribute/Register.antt =====
-- The attribute is a register: it shows the last number that was stored.
use kernel_driver_lab.Prelude.{
  ℕ, ◌^◌, ◌<◌, ◌≡◌, refl, sym, subst, ap, ◌∙◌, pos, Option, none, some, List, [], ◌∷◌, length,
  arith,
}
use kernel_driver_lab.Attribute.{
  Format, KobjAttribute, kobj_value, scanned, sysfs_show, sysfs_store, Owner, kobj_attr,
  spinlock_module,
}

-- What processes do with the attribute, in order
pub data Access : Type 0 where
  shows : Access
  stores : List ℕ → Access

-- The variable after the accesses
abbrev pub run : KobjAttribute → ℕ → List Access → ℕ
run a value [] = value
run a value (shows ∷ rest) = run a value rest
run a value (stores text ∷ rest) = run a (a.store value text).value rest

-- The last of the stored texts in which there is a number
abbrev pub last_number : Format → List Access → Option ℕ
last_number f [] = none
last_number f (shows ∷ rest) = last_number f rest
last_number f (stores text ∷ rest) = elim (last_number f rest) [
  | some value ↦ some value
  | none ↦ f.sscanf text
]

-- A text with no number, or one after it
scanned_twice :
    (old : ℕ) (first second : Option ℕ)
    → scanned (scanned old first) second
      ≡ scanned old (elim second [ some value ↦ some value | none ↦ first ])
scanned_twice old first none = refl
scanned_twice old first (some value) = refl

scanned_small :
    (old : ℕ) (o : Option ℕ)
    → old < 2 ^ 32
    → ((value : ℕ) → o ≡ some value → value < 2 ^ 32)
    → scanned old o < 2 ^ 32
scanned_small old none h each = h
scanned_small old (some value) h each = each value refl

module _ (f : Format) where
  abbrev plain : KobjAttribute
  plain = record { show = sysfs_show f; store = sysfs_store f }

  kobj_attr-plain : (o : Owner) → kobj_attr f o ≡ plain
  kobj_attr-plain spinlock_module = refl
  kobj_attr-plain o = refl

  run-scanned :
      (value : ℕ) (cs : List Access) → run plain value cs ≡ scanned value (last_number f cs)
  unfolding sysfs_store
  run-scanned value [] = refl
  run-scanned value (shows ∷ rest) = run-scanned value rest
  run-scanned value (stores text ∷ rest) =
      run-scanned (scanned value (f.sscanf text)) rest
      ∙ scanned_twice value (f.sscanf text) (last_number f rest)

  run_small : (value : ℕ) (cs : List Access) → value < 2 ^ 32 → run plain value cs < 2 ^ 32
  unfolding sysfs_store
  run_small value [] h = h
  run_small value (shows ∷ rest) h = run_small value rest h
  run_small value (stores text ∷ rest) h =
      run_small (scanned value (f.sscanf text)) rest
        (scanned_small value (f.sscanf text) h (λ v e. f.small text e))

  -- What holds of an attribute after accesses that leave `value`
  abbrev pub Registers : List Access → KobjAttribute → Type 0
  Registers cs a =
      let value = run a kobj_value cs in
      let shown = a.show value in
      (value ≡ scanned kobj_value (last_number f cs))
      × (f.sscanf shown.text ≡ some value)
      × (shown.result ≡ pos (length shown.text))
      × ((text : List ℕ) → (a.store value text).result ≡ pos (length text))
      × (a.store value shown.text ≡ record { result = shown.result; value = value })

  plain-Registers : (cs : List Access) → Registers cs plain
  unfolding sysfs_show sysfs_store
  plain-Registers cs =
      let back =
        f.sscanf-sprintf (run plain kobj_value cs) (run_small kobj_value cs (omega arith)) in
      (
        run-scanned kobj_value cs,
        back,
        refl,
        λ text. refl,
        ap
            (λ o. record {
              result = pos (length (f.sprintf (run plain kobj_value cs)));
              value = scanned (run plain kobj_value cs) o;
            })
            back,
      )

-- For every module with the attribute, every format by which sscanf reads back what sprintf writes, and
-- all accesses since the loading: the variable is the last number in a stored text, or 10 if there is
-- none; a read shows a text that reads back as the variable, and returns its length; a store returns the
-- length of its text, whether or not there is a number in it; and storing what a read showed changes
-- nothing.
pub attribute_register :
    (f : Format) (o : Owner) (cs : List Access) → Registers f cs (kobj_attr f o)
attribute_register f o cs =
    subst (Registers f cs) (sym (kobj_attr-plain f o)) (plain-Registers f cs)
