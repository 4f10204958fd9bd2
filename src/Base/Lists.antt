-- ===== src/Base/Lists.antt =====
-- Lists measured and indexed by native numbers, under the library's names, and `All`.
use Prim.Native.Nat.{ℕ, zero, suc, ◌+◌, ◌<◌, ◌≤◌}
use mathlib.Core.Path.{◌≡◌, refl, sym, ap, ap₂}
use mathlib.Core.Logic.{◌≢◌}
use mathlib.Core.List.{List, [], ◌∷◌, ◌++◌}
use mathlib.Core.Option.{Option, none, some}
use native.Mathlib.Omega.{arith}

module _ {ℓ} {A : Type ℓ} where
  abbrev pub length : List A → ℕ
  length [] = 0
  length (x ∷ xs) = suc (length xs)

  abbrev pub get_elem? : List A → ℕ → Option A
  get_elem? [] i = none
  get_elem? (x ∷ xs) zero = some x
  get_elem? (x ∷ xs) (suc i) = get_elem? xs i

  -- A write out of bounds changes nothing.
  abbrev pub set : List A → ℕ → A → List A
  set [] i v = []
  set (x ∷ xs) zero v = v ∷ xs
  set (x ∷ xs) (suc i) v = x ∷ set xs i v

  pub length-append : (xs ys : List A) → length (xs ++ ys) ≡ length xs + length ys
  length-append [] ys = omega arith
  length-append (x ∷ xs) ys = omega (arith, length-append xs ys)

  pub length-set : (xs : List A) (i : ℕ) (v : A) → length (set xs i v) ≡ length xs
  length-set [] i v = refl
  length-set (x ∷ xs) zero v = refl
  length-set (x ∷ xs) (suc i) v = ap suc (length-set xs i v)

  pub set_twice : (xs : List A) (i : ℕ) (v w : A) → set (set xs i v) i w ≡ set xs i w
  set_twice [] i v w = refl
  set_twice (x ∷ xs) zero v w = refl
  set_twice (x ∷ xs) (suc i) v w = ap (◌∷◌ x) (set_twice xs i v w)

  pub set-append_last : (xs : List A) (v w : A) → set (xs ++ v ∷ []) (length xs) w ≡ xs ++ w ∷ []
  set-append_last [] v w = refl
  set-append_last (x ∷ xs) v w = ap (◌∷◌ x) (set-append_last xs v w)

  pub get_elem?-set_self :
      (xs : List A) (i : ℕ) (v : A) → i < length xs → get_elem? (set xs i v) i ≡ some v
  get_elem?-set_self [] i v h = elim h [ ]
  get_elem?-set_self (x ∷ xs) zero v h = refl
  get_elem?-set_self (x ∷ xs) (suc i) v h = get_elem?-set_self xs i v (omega arith)

  pub get_elem?-set_ne :
      (xs : List A) (i j : ℕ) (v : A) → i ≢ j → get_elem? (set xs i v) j ≡ get_elem? xs j
  get_elem?-set_ne [] i j v h = refl
  get_elem?-set_ne (x ∷ xs) zero zero v h = absurd (h refl)
  get_elem?-set_ne (x ∷ xs) zero (suc j) v h = refl
  get_elem?-set_ne (x ∷ xs) (suc i) zero v h = refl
  get_elem?-set_ne (x ∷ xs) (suc i) (suc j) v h = get_elem?-set_ne xs i j v (λ e. h (ap suc e))

  -- An element put at the end is found at the old length, and the others where they were.
  pub get_elem?-append_last : (xs : List A) (v : A) → get_elem? (xs ++ v ∷ []) (length xs) ≡ some v
  get_elem?-append_last [] v = refl
  get_elem?-append_last (x ∷ xs) v = get_elem?-append_last xs v

  pub get_elem?-append_left :
      (xs ys : List A) (i : ℕ) → i < length xs → get_elem? (xs ++ ys) i ≡ get_elem? xs i
  get_elem?-append_left [] ys i h = elim h [ ]
  get_elem?-append_left (x ∷ xs) ys zero h = refl
  get_elem?-append_left (x ∷ xs) ys (suc i) h = get_elem?-append_left xs ys i (omega arith)

  pub get_elem?-lt : (xs : List A) (i : ℕ) (v : A) → get_elem? xs i ≡ some v → i < length xs
  get_elem?-lt [] i v h = absurd (ground arith)
  get_elem?-lt (x ∷ xs) zero v h = omega arith
  get_elem?-lt (x ∷ xs) (suc i) v h = omega (arith, get_elem?-lt xs i v h)

module _ {ℓ} {A : Type ℓ} where
  -- Two ways to cut one list: the longer first part begins with the shorter.
  pub append_split :
      (xs ys s t : List A)
      → xs ++ ys ≡ s ++ t
      → length xs ≤ length s
      → (m : List A) × (s ≡ xs ++ m) × (ys ≡ m ++ t)
  append_split [] ys s t e h = (s, refl, e)
  append_split (x ∷ xs) ys [] t e h = absurd (omega arith)
  append_split (x ∷ xs) ys (z ∷ s) t e h =
      let (m, p, q) = append_split xs ys s t (cc) (omega arith) in
      let head : x ≡ z = cc in (m, ap₂ ◌∷◌ (sym head) p, q)

module _ {ℓ κ} {A : Type ℓ} (P : A → Type κ) where
  abbrev pub All : List A → Type κ
  All [] = Unit
  All (x ∷ xs) = P x × All xs

  All-append : (xs ys : List A) → All xs → All ys → All (xs ++ ys)
  All-append [] ys h k = k
  All-append (x ∷ xs) ys h k = (h.0, All-append xs ys h.1 k)

  pub All-middle : (xs ys : List A) (y : A) → All (xs ++ y ∷ ys) → P y × All (xs ++ ys)
  All-middle [] ys y h = h
  All-middle (x ∷ xs) ys y h = let (p, q) = All-middle xs ys y h.1 in (p, (h.0, q))

  pub All-put : (xs ys : List A) (y : A) → P y → All (xs ++ ys) → All (xs ++ y ∷ ys)
  All-put [] ys y p h = (p, h)
  All-put (x ∷ xs) ys y p h = (h.0, All-put xs ys y p h.1)

module _ {ℓ κ} {A : Type ℓ} {P Q : A → Type κ} (imp : (a : A) → P a → Q a) where
  pub All-map : (xs : List A) → All P xs → All Q xs
  All-map [] h = tt
  All-map (x ∷ xs) h = (imp x h.0, All-map xs h.1)

module _ {ℓ} {A : Type ℓ} where
  abbrev pub take : ℕ → List A → List A
  take zero xs = []
  take (suc n) [] = []
  take (suc n) (x ∷ xs) = x ∷ take n xs

  abbrev pub concat : List (List A) → List A
  concat [] = []
  concat (xs ∷ xss) = xs ++ concat xss

  abbrev pub drop : ℕ → List A → List A
  drop zero xs = xs
  drop (suc n) [] = []
  drop (suc n) (x ∷ xs) = drop n xs

  pub take-append_drop : (n : ℕ) (xs : List A) → take n xs ++ drop n xs ≡ xs
  take-append_drop zero xs = refl
  take-append_drop (suc n) [] = refl
  take-append_drop (suc n) (x ∷ xs) = ap (λ ys. x ∷ ys) (take-append_drop n xs)
