-- ===== src/Base/Lists.antt =====
-- Lists measured and indexed by native numbers, under the library's names.
use Prim.Native.Nat.{ℕ, zero, suc, ◌+◌, ◌-◌, ◌≤◌, ◌<◌, min}
use mathlib.Core.Path.{◌≡◌, refl, ap, ◌∙◌}
use mathlib.Core.List.{List, [], ◌∷◌, ◌++◌, map}
use mathlib.Core.Option.{Option, none, some}
use native.Mathlib.Omega.{arith}

module _ {ℓ} {A : Type ℓ} where
  abbrev pub length : List A → ℕ
  length [] = 0
  length (x ∷ xs) = suc (length xs)

  abbrev pub get_elem? : List A → ℕ → Option A
  get_elem? [] i = none
  get_elem? (x ∷ xs) zero = some x
  get_elem? (x ∷ xs) (suc i) = get_elem? xs i

  abbrev pub get_or : List A → ℕ → A → A
  get_or [] i d = d
  get_or (x ∷ xs) zero d = x
  get_or (x ∷ xs) (suc i) d = get_or xs i d

  abbrev pub take : ℕ → List A → List A
  take zero xs = []
  take (suc n) [] = []
  take (suc n) (x ∷ xs) = x ∷ take n xs

  abbrev pub drop : ℕ → List A → List A
  drop zero xs = xs
  drop (suc n) [] = []
  drop (suc n) (x ∷ xs) = drop n xs

  abbrev pub replicate : ℕ → A → List A
  replicate zero a = []
  replicate (suc n) a = a ∷ replicate n a

  -- A predicate of every element, by recursion.
  abbrev pub All {κ} : (A → Type κ) → List A → Type κ
  All P [] = Unit
  All P (x ∷ xs) = P x × All P xs

  pub length-append : (xs ys : List A) → length (xs ++ ys) ≡ length xs + length ys
  length-append [] ys = omega arith
  length-append (x ∷ xs) ys = omega (arith, length-append xs ys)

  pub length-drop : (n : ℕ) (xs : List A) → length (drop n xs) ≡ length xs - n
  length-drop zero xs = omega arith
  length-drop (suc n) [] = omega arith
  length-drop (suc n) (x ∷ xs) = omega (arith, length-drop n xs)

  pub length-take : (n : ℕ) (xs : List A) → length (take n xs) ≡ min n (length xs)
  length-take zero xs = omega arith
  length-take (suc n) [] = omega arith
  length-take (suc n) (x ∷ xs) = omega (arith, length-take n xs)

  pub take-append-drop : (n : ℕ) (xs : List A) → take n xs ++ drop n xs ≡ xs
  take-append-drop zero xs = refl
  take-append-drop (suc n) [] = refl
  take-append-drop (suc n) (x ∷ xs) = rw (take-append-drop n xs)

-- The numbers `i`, `i + 1`, ..., `n` of them.
abbrev pub count_up : ℕ → ℕ → List ℕ
count_up i zero = []
count_up i (suc n) = i ∷ count_up (suc i) n

pub length-map {ℓ κ} :
    {A : Type ℓ} {B : Type κ} (f : A → B) (xs : List A) → length (map f xs) ≡ length xs
length-map f [] = refl
length-map f (x ∷ xs) = ap suc (length-map f xs)

pub length-count_up : (i n : ℕ) → length (count_up i n) ≡ n
length-count_up i zero = refl
length-count_up i (suc n) = ap suc (length-count_up (suc i) n)

-- What holds of more numbers holds of fewer.
pub All-count_up {ℓ} :
    (P : ℕ → Type ℓ) (i k n : ℕ) → k ≤ n → All P (count_up i n) → All P (count_up i k)
All-count_up P i zero n h a = tt
All-count_up P i (suc k) zero h a = elim h [ ]
All-count_up P i (suc k) (suc n) h a = (a.0, All-count_up P (suc i) k n (omega arith) a.1)

-- The entries of a list that a function gives.
get_elem?-map-count_up {ℓ} :
    {A : Type ℓ} (g : ℕ → A) (a n k : ℕ)
    → k < n
    → get_elem? (map g (count_up a n)) k ≡ some (g (a + k))
get_elem?-map-count_up g a zero k h = elim h [ ]
get_elem?-map-count_up g a (suc n) zero h = ap (λ i. some (g i)) (omega arith)
get_elem?-map-count_up g a (suc n) (suc k) h =
    get_elem?-map-count_up g (suc a) n k (omega arith) ∙ ap (λ i. some (g i)) (omega arith)

pub get_elem?-map {ℓ} :
    {A : Type ℓ} (g : ℕ → A) (n k : ℕ) → k < n → get_elem? (map g (count_up 0 n)) k ≡ some (g k)
get_elem?-map g n k h = get_elem?-map-count_up g 0 n k h ∙ ap (λ i. some (g i)) (omega arith)

pub All-append {ℓ κ} :
    {A : Type ℓ} (P : A → Type κ) (xs ys : List A) → All P xs → All P ys → All P (xs ++ ys)
All-append P [] ys h g = g
All-append P (x ∷ xs) ys h g = (h.0, All-append P xs ys h.1 g)
