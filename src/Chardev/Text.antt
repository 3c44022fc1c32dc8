-- ===== src/Chardev/Text.antt =====
-- Strings in arrays: where `strlen` stops, and lists written and cut at an index.
use kernel_driver_lab.Prelude.{
  ℕ, zero, suc, ◌-◌, ◌≤◌, ◌<◌, ◌≡◌, ◌≢◌, refl, ap, ◌∙◌, List, [], ◌∷◌, ◌++◌, some, length,
  get_elem?, set, take, drop, replicate, arith, ◌==◌, Bool-cases, inl, inr, length-append,
  length-take, length-drop, length-replicate,
}
use kernel_driver_lab.Chardev.{strlen}

abbrev pub AllNonzero : List ℕ → Type 0
AllNonzero [] = Unit
AllNonzero (x ∷ xs) = (x ≢ 0) × AllNonzero xs

-- A string of nonzero bytes ends at the zero behind it.
pub strlen-append_zero : (s rest : List ℕ) → AllNonzero s → strlen (s ++ 0 ∷ rest) ≡ some (length s)
strlen-append_zero [] rest h = refl
strlen-append_zero (x ∷ s) rest h = ground (arith, strlen-append_zero s rest h.1)

-- A zero anywhere ends the string there or earlier.
pub strlen-some :
    (b : List ℕ) (i : ℕ) → get_elem? b i ≡ some 0 → (n : ℕ) × (strlen b ≡ some n) × (n ≤ i)
strlen-some [] i h = cc
strlen-some (x ∷ b) zero h = (0, ground arith, omega arith)
strlen-some (x ∷ b) (suc i) h = elim (Bool-cases (x == 0)) [
  | inl e ↦ (0, rw e refl, omega arith)
  | inr e ↦ let (n, found, le) = strlen-some b i h in (suc n, rw (e, found) refl, omega arith)
]

pub strlen-tail :
    (x : ℕ) (b : List ℕ) {m : ℕ} → strlen (x ∷ b) ≡ some (suc m) → (x ≢ 0) × (strlen b ≡ some m)
strlen-tail x b h = (ground arith, ground arith)

-- Where `strlen` stops there is a zero, inside the array, and none before it.
pub strlen_stop :
    (b : List ℕ) {n : ℕ}
    → strlen b ≡ some n
    → (get_elem? b n ≡ some 0) × (n < length b) × AllNonzero (take n b)
strlen_stop [] h = absurd (ground arith)
strlen_stop (x ∷ b) {n = zero} h = (ground arith, omega arith, tt)
strlen_stop (x ∷ b) {n = suc m} h =
    let (head, tail) = strlen-tail x b h in
    let (zero_there, inside, none_before) = strlen_stop b tail in
    (zero_there, omega arith, (head, none_before))

-- Writing what is there changes nothing.
pub set_same {ℓ} :
    {A : Type ℓ} (xs : List A) (i : ℕ) (v : A) → get_elem? xs i ≡ some v → set xs i v ≡ xs
set_same [] i v h = refl
set_same (x ∷ xs) zero v h = ground arith
set_same (x ∷ xs) (suc i) v h = ap (λ ys. x ∷ ys) (set_same xs i v h)

pub take_append {ℓ} : {A : Type ℓ} (xs ys : List A) → take (length xs) (xs ++ ys) ≡ xs
take_append [] ys = refl
take_append (x ∷ xs) ys = ap (λ zs. x ∷ zs) (take_append xs ys)

pub take_append_at {ℓ} :
    {A : Type ℓ} (xs ys : List A) (i : ℕ) → length xs ≡ i → take i (xs ++ ys) ≡ xs
take_append_at xs ys i h = rw (← h) (take_append xs ys)

pub set_append {ℓ} :
    {A : Type ℓ} (xs : List A) (y v : A) (ys : List A)
    → set (xs ++ y ∷ ys) (length xs) v ≡ xs ++ v ∷ ys
set_append [] y v ys = refl
set_append (x ∷ xs) y v ys = ap (λ zs. x ∷ zs) (set_append xs y v ys)

pub get_elem?_append {ℓ} :
    {A : Type ℓ} (xs : List A) (y : A) (ys : List A) → get_elem? (xs ++ y ∷ ys) (length xs) ≡ some y
get_elem?_append [] y ys = refl
get_elem?_append (x ∷ xs) y ys = get_elem?_append xs y ys

pub length-filled :
    (xs ys : List ℕ) (n left : ℕ)
    → left ≤ n
    → n - left ≤ length xs
    → n ≤ length ys
    → length (take (n - left) xs ++ (replicate left 0 ++ drop n ys)) ≡ length ys
length-filled xs ys n left h1 h2 h3 = omega (
  arith,
  length-append (take (n - left) xs) (replicate left 0 ++ drop n ys),
  length-append (replicate left 0) (drop n ys),
  length-take (n - left) xs,
  length-replicate {A = ℕ} left 0,
  length-drop n ys,
)

-- The first byte that was not copied is 0.
pub get_elem?-filled :
    (xs ys : List ℕ) (n left : ℕ)
    → n - left ≤ length xs
    → left ≢ 0
    → get_elem? (take (n - left) xs ++ (replicate left 0 ++ drop n ys)) (n - left) ≡ some 0
get_elem?-filled xs ys n zero h p = absurd (p refl)
get_elem?-filled xs ys n (suc left) h p =
    let at : length (take (n - suc left) xs) ≡ n - suc left =
      omega (arith, length-take (n - suc left) xs) in
    rw at at (get_elem?_append (take (n - suc left) xs) 0 (replicate left 0 ++ drop n ys))

pub set-split {ℓ} :
    {A : Type ℓ} (xs : List A) (i : ℕ) (v : A)
    → i < length xs
    → set xs i v ≡ take i xs ++ v ∷ drop (suc i) xs
set-split [] i v h = absurd (omega arith)
set-split (x ∷ xs) zero v h = refl
set-split (x ∷ xs) (suc i) v h = ap (λ ys. x ∷ ys) (set-split xs i v (omega arith))

-- The first `i` elements of a list whose first `n` are those of `xs`.
pub take-take_append {ℓ} :
    {A : Type ℓ} (i n : ℕ) (xs ys : List A)
    → i ≤ n
    → i ≤ length xs
    → take i (take n xs ++ ys) ≡ take i xs
take-take_append zero n xs ys h1 h2 = refl
take-take_append (suc i) zero xs ys h1 h2 = absurd (omega arith)
take-take_append (suc i) (suc n) [] ys h1 h2 = absurd (omega arith)
take-take_append (suc i) (suc n) (x ∷ xs) ys h1 h2 =
    ap (λ zs. x ∷ zs) (take-take_append i n xs ys (omega arith) (omega arith))

pub AllNonzero-take :
    (i n : ℕ) (xs : List ℕ) → i ≤ n → AllNonzero (take n xs) → AllNonzero (take i xs)
AllNonzero-take zero n xs h a = tt
AllNonzero-take (suc i) zero xs h a = absurd (omega arith)
AllNonzero-take (suc i) (suc n) [] h a = tt
AllNonzero-take (suc i) (suc n) (x ∷ xs) h a = (a.0, AllNonzero-take i n xs (omega arith) a.1)

-- A zero written behind nonzero bytes makes them the string.
pub strlen-set :
    (b : List ℕ) (i : ℕ)
    → i < length b
    → AllNonzero (take i b)
    → (strlen (set b i 0) ≡ some i) × (take i (set b i 0) ≡ take i b)
strlen-set b i h a =
    let size : length (take i b) ≡ i = omega (arith, length-take i b) in
    rw (set-split b i 0 h) (
      strlen-append_zero (take i b) (drop (suc i) b) a ∙ ap some size,
      take_append_at (take i b) (0 ∷ drop (suc i) b) i size,
    )
