-- ===== src/Base/Lists.antt =====
-- Lists measured and indexed by native numbers, under the library's names.
use Prim.Native.Nat.{◌≤◌, ℕ, zero, suc, ◌+◌, ◌-◌, ◌<◌, min}
use mathlib.Core.Path.{◌≡◌, refl, ap}
use mathlib.Core.Logic.{◌≢◌}
use mathlib.Core.List.{List, [], ◌∷◌, ◌++◌}
use mathlib.Core.Option.{Option, none, some}
use native.Mathlib.Omega.{arith}

module _ {ℓ} {A : Type ℓ} where
  abbrev pub length : List A → ℕ
  length [] = 0
  length (x ∷ xs) = suc (length xs)

  abbrev pub get_elem? : List A → ℕ → Option A
  get_elem? [] i = none
  get_elem? (x ∷ xs) zero = some x
  get_elem? (x ∷ xs) (suc i) = get_elem? xs i

  abbrev pub get_or : List A → ℕ → A → A
  get_or [] i d = d
  get_or (x ∷ xs) zero d = x
  get_or (x ∷ xs) (suc i) d = get_or xs i d

  -- A write out of bounds changes nothing.
  abbrev pub set : List A → ℕ → A → List A
  set [] i v = []
  set (x ∷ xs) zero v = v ∷ xs
  set (x ∷ xs) (suc i) v = x ∷ set xs i v

  abbrev pub take : ℕ → List A → List A
  take zero xs = []
  take (suc n) [] = []
  take (suc n) (x ∷ xs) = x ∷ take n xs

  abbrev pub drop : ℕ → List A → List A
  drop zero xs = xs
  drop (suc n) [] = []
  drop (suc n) (x ∷ xs) = drop n xs

  abbrev pub replicate : ℕ → A → List A
  replicate zero a = []
  replicate (suc n) a = a ∷ replicate n a

module _ {ℓ} {A : Type ℓ} where
  pub length-append : (xs ys : List A) → length (xs ++ ys) ≡ length xs + length ys
  length-append [] ys = omega arith
  length-append (x ∷ xs) ys = omega (arith, length-append xs ys)

  pub length-set : (xs : List A) (i : ℕ) (v : A) → length (set xs i v) ≡ length xs
  length-set [] i v = refl
  length-set (x ∷ xs) zero v = refl
  length-set (x ∷ xs) (suc i) v = ap suc (length-set xs i v)

  pub get_elem?-set_self :
      (xs : List A) (i : ℕ) (v : A) → i < length xs → get_elem? (set xs i v) i ≡ some v
  get_elem?-set_self [] i v h = elim h [ ]
  get_elem?-set_self (x ∷ xs) zero v h = refl
  get_elem?-set_self (x ∷ xs) (suc i) v h = get_elem?-set_self xs i v (omega arith)

  pub get_elem?-set_ne :
      (xs : List A) {i j : ℕ} (v : A) → i ≢ j → get_elem? (set xs i v) j ≡ get_elem? xs j
  get_elem?-set_ne [] v h = refl
  get_elem?-set_ne (x ∷ xs) {i = zero} {j = zero} v h = absurd (h refl)
  get_elem?-set_ne (x ∷ xs) {i = zero} {j = suc j} v h = refl
  get_elem?-set_ne (x ∷ xs) {i = suc i} {j = zero} v h = refl
  get_elem?-set_ne (x ∷ xs) {i = suc i} {j = suc j} v h = get_elem?-set_ne xs v (λ e. h (ap suc e))

  pub get_elem?-lt : (xs : List A) (i : ℕ) {a : A} → get_elem? xs i ≡ some a → i < length xs
  get_elem?-lt [] i h = cc
  get_elem?-lt (x ∷ xs) zero h = omega arith
  get_elem?-lt (x ∷ xs) (suc i) h = omega (arith, get_elem?-lt xs i h)

  pub get_elem?-some : (xs : List A) (i : ℕ) → i < length xs → (a : A) × (get_elem? xs i ≡ some a)
  get_elem?-some [] i h = elim h [ ]
  get_elem?-some (x ∷ xs) zero h = (x, refl)
  get_elem?-some (x ∷ xs) (suc i) h = get_elem?-some xs i (omega arith)

  pub get_elem?-length : (xs : List A) → get_elem? xs (length xs) ≡ none
  get_elem?-length [] = refl
  get_elem?-length (x ∷ xs) = get_elem?-length xs

  pub take-append-drop : (n : ℕ) (xs : List A) → take n xs ++ drop n xs ≡ xs
  take-append-drop zero xs = refl
  take-append-drop (suc n) [] = refl
  take-append-drop (suc n) (x ∷ xs) = ap (◌∷◌ x) (take-append-drop n xs)

  pub length-take : (n : ℕ) (xs : List A) → length (take n xs) ≡ min n (length xs)
  length-take zero xs = omega arith
  length-take (suc n) [] = omega arith
  length-take (suc n) (x ∷ xs) = omega (arith, length-take n xs)

  pub length-drop : (n : ℕ) (xs : List A) → length (drop n xs) ≡ length xs - n
  length-drop zero xs = omega arith
  length-drop (suc n) [] = omega arith
  length-drop (suc n) (x ∷ xs) = omega (arith, length-drop n xs)

  pub length-replicate : (n : ℕ) (a : A) → length (replicate n a) ≡ n
  length-replicate zero a = refl
  length-replicate (suc n) a = ap suc (length-replicate n a)

  -- Positions counted over an append.
  pub drop-append_at : (xs ys : List A) (n : ℕ) → length xs ≡ n → drop n (xs ++ ys) ≡ ys
  drop-append_at [] ys zero h = refl
  drop-append_at [] ys (suc n) h = absurd (omega arith)
  drop-append_at (x ∷ xs) ys zero h = absurd (omega arith)
  drop-append_at (x ∷ xs) ys (suc n) h = drop-append_at xs ys n (omega arith)

  pub take-all : (xs : List A) (n : ℕ) → length xs ≤ n → take n xs ≡ xs
  take-all [] zero h = refl
  take-all [] (suc n) h = refl
  take-all (x ∷ xs) zero h = absurd (omega (arith, h))
  take-all (x ∷ xs) (suc n) h = ap (◌∷◌ x) (take-all xs n (omega (arith, h)))

  pub take-append_at : (xs ys : List A) (n : ℕ) → length xs ≡ n → take n (xs ++ ys) ≡ xs
  take-append_at [] ys zero h = refl
  take-append_at [] ys (suc n) h = absurd (omega arith)
  take-append_at (x ∷ xs) ys zero h = absurd (omega arith)
  take-append_at (x ∷ xs) ys (suc n) h = ap (◌∷◌ x) (take-append_at xs ys n (omega arith))

  pub get_or-append_at :
      (xs ys : List A) (y d : A) (n : ℕ) → length xs ≡ n → get_or (xs ++ y ∷ ys) n d ≡ y
  get_or-append_at [] ys y d zero h = refl
  get_or-append_at [] ys y d (suc n) h = absurd (omega arith)
  get_or-append_at (x ∷ xs) ys y d zero h = absurd (omega arith)
  get_or-append_at (x ∷ xs) ys y d (suc n) h = get_or-append_at xs ys y d n (omega arith)

  -- A write at or behind position `n` is a write in what `drop n` leaves.
  pub drop-set : (xs : List A) (n k : ℕ) (v : A) → drop n (set xs (n + k) v) ≡ set (drop n xs) k v
  drop-set xs zero k v = let e : 0 + k ≡ k = omega arith in rw e
  drop-set [] (suc n) k v = refl
  drop-set (x ∷ xs) (suc n) k v =
      let e : suc n + k ≡ suc (n + k) = omega arith in rw e (drop-set xs n k v)

  pub set-append_at :
      (xs ys : List A) (y v : A) (n : ℕ) → length xs ≡ n → set (xs ++ y ∷ ys) n v ≡ xs ++ v ∷ ys
  set-append_at [] ys y v zero h = refl
  set-append_at [] ys y v (suc n) h = absurd (omega arith)
  set-append_at (x ∷ xs) ys y v zero h = absurd (omega arith)
  set-append_at (x ∷ xs) ys y v (suc n) h = ap (◌∷◌ x) (set-append_at xs ys y v n (omega arith))

  -- A list that is not empty has a last element.
  pub snoc_cases :
      (n : ℕ) (w : List A)
      → length w ≡ suc n
      → (v : List A) × (y : A) × (w ≡ v ++ y ∷ []) × (length v ≡ n)
  snoc_cases n [] h = absurd (omega (arith, h))
  snoc_cases zero (x ∷ []) h = ([], x, refl, refl)
  snoc_cases zero (x ∷ y ∷ w) h = absurd (omega (arith, h))
  snoc_cases (suc n) (x ∷ w) h =
      let (v, y, e, k) = snoc_cases n w (omega (arith, h)) in (x ∷ v, y, ap (◌∷◌ x) e, ap suc k)

  pub replicate-last :
      (a : A) (n : ℕ) (rest : List A) → replicate n a ++ a ∷ rest ≡ replicate (suc n) a ++ rest
  replicate-last a zero rest = refl
  replicate-last a (suc n) rest = ap (◌∷◌ a) (replicate-last a n rest)
