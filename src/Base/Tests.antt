-- ===== src/Base/Tests.antt =====
-- Boolean tests on the native numbers, the conditional, case rules, and calls that may panic.
use Prim.Native.Nat.{ℕ, ◌≤◌, ◌<◌, compare, Ordering}
use Prim.Native.String.{String}
use mathlib.Core.Path.{◌≡◌, refl}
use mathlib.Core.Logic.{◌≢◌, ◌⊎◌, inl, inr}
use mathlib.Core.Bool.{Bool, true, false}
use mathlib.Core.Option.{Option, none, some}
use native.Mathlib.Omega.{arith}
use text.Mathlib.Text.{◌==◌}
use text.Mathlib.TextEquality.{eq_iff}
use text.Mathlib.TextPositions.{eq_refl}

abbrev pub ltb : ℕ → ℕ → Bool
ltb a b = elim (compare a b) [ Ordering.lt ↦ true | _ ↦ false ]

abbrev pub leb : ℕ → ℕ → Bool
leb a b = elim (compare a b) [ Ordering.gt ↦ false | _ ↦ true ]

-- Equality of numbers; `==` is that of texts.
abbrev pub nat_eq : ℕ → ℕ → Bool
nat_eq a b = elim (compare a b) [ Ordering.eq ↦ true | _ ↦ false ]

infix 1 if◌then◌else◌
abbrev pub if◌then◌else◌ {ℓ} : {A : Type ℓ} → Bool → A → A → A
if true then x else y = x
if false then x else y = y

ltb→lt : (a b : ℕ) → ltb a b ≡ true → a < b
ltb→lt a b h = ground arith

leb→le : (a b : ℕ) → leb a b ≡ true → a ≤ b
leb→le a b h = ground arith

pub nat_eq→eq : (a b : ℕ) → nat_eq a b ≡ true → a ≡ b
nat_eq→eq a b h = ground arith

pub nat_eq_refl : (a : ℕ) → nat_eq a a ≡ true
nat_eq_refl a = ground arith

pub nat_eq_ne : (a b : ℕ) → a ≢ b → nat_eq a b ≡ false
nat_eq_ne a b h = ground arith

pub eq_false : (s t : String) → s ≢ t → (s == t) ≡ false
eq_false s t h = ground (arith, eq_iff s t)

pub ne_of_eq_false : (s t : String) → (s == t) ≡ false → s ≢ t
ne_of_eq_false s t h = ground (arith, eq_iff s t)

pub Bool-cases : (b : Bool) → (b ≡ true) ⊎ (b ≡ false)
Bool-cases true = inl refl
Bool-cases false = inr refl

pub Option-cases {ℓ} : {A : Type ℓ} (o : Option A) → (o ≡ none) ⊎ ((a : A) × (o ≡ some a))
Option-cases none = inl refl
Option-cases (some a) = inr (a, refl)

-- A Go call that returns, or that stops its goroutine with a run-time panic.
pub data Run {ℓ} (A : Type ℓ) : Type ℓ where
  returns : A → Run A
  panics : Run A

infixl 5 ◌>>=◌
abbrev pub ◌>>=◌ {ℓ κ} : {A : Type ℓ} {B : Type κ} → Run A → (A → Run B) → Run B
returns a >>= f = f a
panics >>= f = panics

-- Injective images are tested equal as their arguments are.
pub eq-image :
    (f : String → String)
    → ((a b : String) → f a ≡ f b → a ≡ b)
    → (a b : String) → (f a == f b) ≡ (a == b)
eq-image f inj a b = elim (Bool-cases (a == b)) [
  | inl same ↦ rw (same, (eq_iff a b).0 same) (eq_refl (f b))
  | inr differ ↦ rw differ (eq_false (f a) (f b) (λ e. ne_of_eq_false a b differ (inj a b e)))
]
