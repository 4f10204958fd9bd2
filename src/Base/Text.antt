-- ===== src/Base/Text.antt =====
-- `strings.ToLower` and `strings.TrimSpace`, over a case table for single characters.
use Prim.Native.Char.{Char, code}
use Prim.Native.Nat.{ℕ}
use Prim.Native.String.{String, [], ◌∷◌}
use mathlib.Core.Path.{◌≡◌, refl, ap, ◌∙◌}
use mathlib.Core.Bool.{Bool, true, false, ◌&&◌, ◌||◌}
use native.Mathlib.Omega.{arith}
use zhangyu.Base.Tests.{leb, nat_eq, if◌then◌else◌, Bool-cases}
use mathlib.Core.Logic.{inl, inr}

-- The code points of `unicode.IsSpace`.
unfoldable pub is_space : ℕ → Bool
is_space c =
    (leb 9 c && leb c 13)
    || nat_eq c 32
    || nat_eq c 0x85
    || nat_eq c 0xA0
    || nat_eq c 0x1680
    || (leb 0x2000 c && leb c 0x200A)
    || nat_eq c 0x2028
    || nat_eq c 0x2029
    || nat_eq c 0x202F
    || nat_eq c 0x205F
    || nat_eq c 0x3000

-- `unicode.ToLower`: the table is Unicode's, and what it promises here is that lower case stays as
-- it is and that white space is neither made nor removed.
pub record CaseTable : Type 0 where
  pub lower : Char → Char
  pub lower_idem : (c : Char) → lower (lower c) ≡ lower c
  pub lower_space : (c : Char) → is_space (code (lower c)) ≡ is_space (code c)

-- `strings.TrimLeft` of white space.
unfoldable trim_left : String → String
trim_left [] = []
trim_left (c ∷ s) = let rest = trim_left s in if is_space (code c) then rest else c ∷ s

-- A character before what is left of a text trimmed at its end.
unfoldable cons_trimmed : Char → String → String
cons_trimmed c [] = if is_space (code c) then [] else c ∷ []
cons_trimmed c (d ∷ s) = c ∷ d ∷ s

unfoldable trim_right : String → String
unfolding cons_trimmed
trim_right [] = []
trim_right (c ∷ s) = cons_trimmed c (trim_right s)

unfoldable pub trim_space : String → String
unfolding trim_left trim_right is_space
trim_space s = trim_right (trim_left s)

-- `strings.ToLower`.
unfoldable pub to_lower : CaseTable → String → String
to_lower u [] = []
to_lower u (c ∷ s) = u.lower c ∷ to_lower u s

cons_trimmed_keeps :
    (c : Char) (s : String) → trim_right s ≡ s → trim_right (cons_trimmed c s) ≡ cons_trimmed c s
unfolding trim_right
cons_trimmed_keeps c [] h = elim (Bool-cases (is_space (code c))) [
  | inl space ↦ rw space
  | inr other ↦ rw (other, trim_right, other)
]
cons_trimmed_keeps c (d ∷ s) h = rw h

trim_right_idem : (s : String) → trim_right (trim_right s) ≡ trim_right s
unfolding trim_right
trim_right_idem [] = refl
trim_right_idem (c ∷ s) = cons_trimmed_keeps c (trim_right s) (trim_right_idem s)

trim_left_idem : (s : String) → trim_left (trim_left s) ≡ trim_left s
unfolding trim_left
trim_left_idem [] = refl
trim_left_idem (c ∷ s) = ground (arith, trim_left_idem s)

trim_left-cons_trimmed_space :
    (c : Char) (s : String) → is_space (code c) ≡ true → trim_left (cons_trimmed c s) ≡ trim_left s
unfolding trim_left cons_trimmed
trim_left-cons_trimmed_space c [] h = rw h
trim_left-cons_trimmed_space c (d ∷ s) h = rw h

trim_left-cons_trimmed_other :
    (c : Char) (s : String)
    → is_space (code c) ≡ false
    → trim_left (cons_trimmed c s) ≡ cons_trimmed c s
unfolding trim_left cons_trimmed
trim_left-cons_trimmed_other c [] h = rw (h, trim_left, h)
trim_left-cons_trimmed_other c (d ∷ s) h = rw h

trim_left-trim_right : (s : String) → trim_left (trim_right s) ≡ trim_right (trim_left s)
unfolding trim_left trim_right
trim_left-trim_right [] = refl
trim_left-trim_right (c ∷ s) = elim (Bool-cases (is_space (code c))) [
  | inl space ↦
      rw (trim_left-cons_trimmed_space c (trim_right s) space, space) (trim_left-trim_right s)
  | inr other ↦ rw (trim_left-cons_trimmed_other c (trim_right s) other, other)
]

trim_space_idem : (s : String) → trim_space (trim_space s) ≡ trim_space s
unfolding trim_space
trim_space_idem s =
    ap trim_right (trim_left-trim_right (trim_left s))
    ∙ trim_right_idem (trim_left (trim_left s))
    ∙ ap trim_right (trim_left_idem s)

module _ (u : CaseTable) where
  to_lower_idem : (s : String) → to_lower u (to_lower u s) ≡ to_lower u s
  unfolding to_lower
  to_lower_idem [] = refl
  to_lower_idem (c ∷ s) = rw (u.lower_idem c, to_lower_idem s)

  to_lower-trim_left : (s : String) → to_lower u (trim_left s) ≡ trim_left (to_lower u s)
  unfolding to_lower trim_left
  to_lower-trim_left [] = refl
  to_lower-trim_left (c ∷ s) = rw (u.lower_space c) (ground (arith, to_lower-trim_left s))

  to_lower-cons_trimmed :
      (c : Char) (s : String)
      → to_lower u (cons_trimmed c s) ≡ cons_trimmed (u.lower c) (to_lower u s)
  unfolding to_lower cons_trimmed
  to_lower-cons_trimmed c [] = rw (u.lower_space c) (elim (Bool-cases (is_space (code c))) [
    | inl space ↦ rw (space, to_lower)
    | inr other ↦ rw (other, to_lower)
  ])
  to_lower-cons_trimmed c (d ∷ s) = refl

  to_lower-trim_right : (s : String) → to_lower u (trim_right s) ≡ trim_right (to_lower u s)
  unfolding to_lower trim_right
  to_lower-trim_right [] = refl
  to_lower-trim_right (c ∷ s) =
      to_lower-cons_trimmed c (trim_right s) ∙ ap (cons_trimmed (u.lower c)) (to_lower-trim_right s)

  -- The order of the two calls does not matter.
  pub to_lower-trim_space : (s : String) → to_lower u (trim_space s) ≡ trim_space (to_lower u s)
  unfolding trim_space
  to_lower-trim_space s = to_lower-trim_right (trim_left s) ∙ ap trim_right (to_lower-trim_left s)

  pub trim_space-to_lower_idem :
      (s : String) → trim_space (to_lower u (trim_space (to_lower u s))) ≡ trim_space (to_lower u s)
  trim_space-to_lower_idem s =
      ap trim_space (to_lower-trim_space (to_lower u s))
      ∙ trim_space_idem (to_lower u (to_lower u s))
      ∙ ap trim_space (to_lower_idem s)
