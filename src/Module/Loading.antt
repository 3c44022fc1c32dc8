-- ===== src/Module/Loading.antt =====
-- The shape of an init function: calls in order, each with the test of its answer and the label that
-- it jumps to.
use kernel_driver_lab.Prelude.{
  ◌≡◌, ℤ, pos, is_negative, is_nonzero, Bool, true, false, not, Option, none, some, List, [], ◌∷◌,
  Bool-cases, inl, inr, if◌then◌else◌,
}
use kernel_driver_lab.Ledger.{Run, ◌▷◌, obtain, deny}
use kernel_driver_lab.Module.{Resource, Answer, is_err, is_null, is_valid, ask}

-- A call for a resource: whether the function takes the answer for a refusal, whether the resource
-- was handed out, and where the function goes after a refusal.
pub record Call : Type 0 where
  pub what : Resource
  pub refused : Bool
  pub granted : Bool
  pub label : Run Resource ℤ

-- `if (f(...) < 0) goto label`
abbrev pub if_negative : Resource → ℤ → Run Resource ℤ → Call
if_negative r n label = record {
  what = r;
  refused = is_negative n;
  granted = not (is_negative n);
  label = label;
}

-- `if (f(...)) goto label`
abbrev pub if_nonzero : Resource → ℤ → Run Resource ℤ → Call
if_nonzero r n label = record {
  what = r;
  refused = is_nonzero n;
  granted = not (is_nonzero n);
  label = label;
}

-- `if (IS_ERR(f(...))) goto label`
abbrev pub if_err : Resource → Answer → Run Resource ℤ → Call
if_err r p label = record { what = r; refused = is_err p; granted = is_valid p; label = label }

-- `if (!f(...)) goto label`
abbrev pub if_null : Resource → Answer → Run Resource ℤ → Call
if_null r p label = record { what = r; refused = is_null p; granted = is_valid p; label = label }

-- A call whose answer the function does not look at.
abbrev pub untested : Resource → Bool → Call
untested r granted = record { what = r; refused = false; granted = granted; label = (pos 0, []) }

-- The calls in order, and what follows when none is refused.
abbrev pub setup : List Call → Run Resource ℤ → Run Resource ℤ
setup [] done = done
setup (c ∷ cs) done = ask c.what c.granted (if c.refused then c.label else setup cs done)

-- Every answer is what the function takes it for.
abbrev pub AllRead : List Call → Type 0
AllRead [] = Unit
AllRead (c ∷ cs) = (c.granted ≡ not c.refused) × AllRead cs

-- The first call that is refused.
abbrev pub noticed : List Call → Option Resource
noticed [] = none
noticed (c ∷ cs) = if c.refused then some c.what else noticed cs

module _ {ℓ} (done : Run Resource ℤ) where
  -- A property of the refused call and of the run, on every path.
  abbrev pub Paths : (Option Resource → Run Resource ℤ → Type ℓ) → List Call → Type ℓ
  Paths P [] = P none done
  Paths P (c ∷ cs) =
      (c.refused ≡ true → P (some c.what) (deny c.what ▷ c.label))
      × Paths (λ o m. P o (obtain c.what ▷ m)) cs

  pub setup_paths :
      (P : Option Resource → Run Resource ℤ → Type ℓ) (cs : List Call)
      → AllRead cs
      → Paths P cs
      → P (noticed cs) (setup cs done)
  setup_paths P [] a p = p
  setup_paths P (c ∷ cs) a p = elim (Bool-cases c.refused) [
    | inl e ↦ rw (a.0, e) (p.0 e)
    | inr e ↦ rw (a.0, e) (setup_paths (λ o m. P o (obtain c.what ▷ m)) cs a.1 p.1)
  ]
