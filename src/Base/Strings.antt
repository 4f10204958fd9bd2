-- ===== src/Base/Strings.antt =====
-- Texts built and compared character by character: `fmt.Sprintf` of texts, prefixes, decimals.
use Prim.Native.Char.{Char, code}
use Prim.Native.Nat.{ℕ, zero, suc, ◌/◌, ◌%◌, ◌<◌, ◌≤◌}
use Prim.Native.String.{String, [], ◌∷◌, char_at}
use mathlib.Core.Path.{◌≡◌, refl, ap, ◌∙◌}
use mathlib.Core.Logic.{◌≢◌}
use mathlib.Core.Bool.{Bool, true, false, ◌&&◌, ◌||◌}
use native.Mathlib.Omega.{arith}
use text.Mathlib.Text.{◌==◌}
use text.Mathlib.TextEquality.{Char-path}
use zhangyu.Base.Tests.{nat_eq, if◌then◌else◌, ltb}

-- A text followed by another. It computes where the first text is a literal.
abbrev pub join : String → String → String
join [] t = t
join (c ∷ s) t = c ∷ join s t

-- `strings.HasPrefix`, with the prefix first.
abbrev pub has_prefix : String → String → Bool
has_prefix [] s = true
has_prefix (c ∷ p) [] = false
has_prefix (c ∷ p) (d ∷ s) = nat_eq (code c) (code d) && has_prefix p s

-- `strings.HasSuffix`.
unfoldable pub has_suffix : String → String → Bool
has_suffix [] suffix = suffix == ""
has_suffix (c ∷ s) suffix = (c ∷ s) == suffix || has_suffix s suffix

-- The code point at a place, 0 past the end.
abbrev pub code_at : ℕ → String → ℕ
code_at n [] = 0
code_at zero (c ∷ s) = code c
code_at (suc n) (c ∷ s) = code_at n s

abbrev pub text_length : String → ℕ
text_length [] = 0
text_length (c ∷ s) = suc (text_length s)

-- No character of a text has the code point.
abbrev pub Lacks : ℕ → String → Type 0
Lacks n [] = Unit
Lacks n (c ∷ s) = (code c ≢ n) × Lacks n s

tail : String → String
tail [] = []
tail (c ∷ s) = s

pub join_cancel : (p s t : String) → join p s ≡ join p t → s ≡ t
unfolding tail
join_cancel [] s t e = e
join_cancel (c ∷ p) s t e = join_cancel p s t (ap tail e)

pub has_prefix-join : (p s : String) → has_prefix p (join p s) ≡ true
has_prefix-join [] s = refl
has_prefix-join (c ∷ p) s = ground (arith, has_prefix-join p s)

pub has_prefix-join_cancel : (p q s : String) → has_prefix (join p q) (join p s) ≡ has_prefix q s
has_prefix-join_cancel [] q s = refl
has_prefix-join_cancel (c ∷ p) q s = ground (arith, has_prefix-join_cancel p q s)

-- Two names without the mark, each followed by the mark: one is a prefix only of itself.
pub has_prefix_marked :
    (mark : Char) (a b rest more : String)
    → Lacks (code mark) a
    → Lacks (code mark) b
    → has_prefix (join a (mark ∷ more)) (join b (mark ∷ rest)) ≡ true
    → a ≡ b
has_prefix_marked mark [] [] rest more h k e = refl
has_prefix_marked mark [] (d ∷ b) rest more h k e = absurd (ground arith)
has_prefix_marked mark (c ∷ a) [] rest more h k e = absurd (ground arith)
has_prefix_marked mark (c ∷ a) (d ∷ b) rest more h k e =
    let ih : a ≡ b = has_prefix_marked mark a b rest more h.1 k.1 (ground arith) in
    let same : c ≡ d = Char-path c d (ground arith) in λ i. same i ∷ ih i

-- The digits of `%d`, before what is already printed, with as many rounds as given.
unfoldable pub decimal_onto : ℕ → ℕ → String → String
decimal_onto zero n acc = acc
decimal_onto (suc rounds) n acc =
    let more = decimal_onto rounds (n / 10) (char_at "0123456789" (n % 10) ∷ acc) in
    if ltb n 10 then char_at "0123456789" n ∷ acc else more

-- `fmt.Sprintf("%d", n)` for an `int64`, which has 19 digits at most.
unfoldable pub decimal : ℕ → String
unfolding decimal_onto
decimal n = decimal_onto 19 n []

decimal_test : decimal 10203040 ≡ "10203040"
unfolding decimal
decimal_test = refl

decimal_more :
    (rounds n : ℕ) (acc : String)
    → 10 ≤ n
    → decimal_onto (suc rounds) n acc
      ≡ decimal_onto rounds (n / 10) (char_at "0123456789" (n % 10) ∷ acc)
unfolding decimal_onto
decimal_more rounds n acc h = ground arith

decimal_last :
    (rounds n : ℕ) (acc : String)
    → n < 10
    → decimal_onto (suc rounds) n acc ≡ char_at "0123456789" n ∷ acc
unfolding decimal_onto
decimal_last rounds n acc h = ground arith

-- A number of eight digits is printed with eight digits.
pub text_length-decimal : (n : ℕ) → 10000000 ≤ n → n < 100000000 → text_length (decimal n) ≡ 8
unfolding decimal
text_length-decimal n h k = ap text_length (
    decimal_more 18 n _ (omega arith)
    ∙ decimal_more 17 (n / 10) _ (omega arith)
    ∙ decimal_more 16 (n / 10 / 10) _ (omega arith)
    ∙ decimal_more 15 (n / 10 / 10 / 10) _ (omega arith)
    ∙ decimal_more 14 (n / 10 / 10 / 10 / 10) _ (omega arith)
    ∙ decimal_more 13 (n / 10 / 10 / 10 / 10 / 10) _ (omega arith)
    ∙ decimal_more 12 (n / 10 / 10 / 10 / 10 / 10 / 10) _ (omega arith)
    ∙ decimal_last 11 (n / 10 / 10 / 10 / 10 / 10 / 10 / 10) _ (omega arith))
