-- ===== src/Ledger.antt =====
-- What a driver asks of the kernel and gives back: the calls that a function of a driver makes, in
-- order, and what it still holds after them. A resource is named by the call that hands it out.
use kernel_driver_lab.Prelude.{Bool, List, [], ◌∷◌, ◌++◌, Tagged, same, if◌then◌else◌, ◌≡◌, refl}

pub data Event {ℓ} (R : Type ℓ) : Type ℓ where
  obtain : R → Event R  -- the call succeeds and hands the resource out
  deny : R → Event R  -- the call fails
  release : R → Event R  -- the call that gives the resource back

-- A run of a function: its result, and the events in order.
abbrev pub Run : Type 0 → Type 0 → Type 0
Run R A = A × List (Event R)

infixr 4 ◌▷◌
abbrev pub ◌▷◌ : {R A : Type 0} → Event R → Run R A → Run R A
e ▷ r = (r.0, e ∷ r.1)

abbrev pub pure : {R A : Type 0} → A → Run R A
pure a = (a, [])

infixl 5 ◌>>=◌
abbrev pub ◌>>=◌ : {R A B : Type 0} → Run R A → (A → Run R B) → Run R B
m >>= f = let r = f m.0 in (r.0, m.1 ++ r.1)

-- The resources held, the newest first, and those given back while they were not held.
pub record Ledger {ℓ} (R : Type ℓ) : Type ℓ where
  pub held : List R
  pub faults : List R

module _ {ℓ} {R : Type ℓ} ⦃t : Tagged R⦄ where
  abbrev pub holds : List R → R → Bool
  holds [] r = Bool.false
  holds (x ∷ xs) r = if same x r then Bool.true else holds xs r

  abbrev pub remove : List R → R → List R
  remove [] r = []
  remove (x ∷ xs) r = if same x r then xs else x ∷ remove xs r

  abbrev pub enter : Ledger R → Event R → Ledger R
  enter l (obtain r) = record l { held = r ∷ l.held }
  enter l (deny r) = l
  enter l (release r) =
      if holds l.held r
      then record l { held = remove l.held r }
      else record l { faults = r ∷ l.faults }

  abbrev pub replay : Ledger R → List (Event R) → Ledger R
  replay l [] = l
  replay l (e ∷ es) = replay (enter l e) es

  pub replay-append :
      (l : Ledger R) (es fs : List (Event R)) → replay l (es ++ fs) ≡ replay (replay l es) fs
  replay-append l [] fs = refl
  replay-append l (e ∷ es) fs = replay-append (enter l e) es fs

abbrev pub nothing {ℓ} : (R : Type ℓ) → Ledger R
nothing R = record { held = []; faults = [] }
