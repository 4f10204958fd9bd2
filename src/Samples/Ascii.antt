-- ===== src/Samples/Ascii.antt =====
-- A case table for texts of ASCII characters.
use Prim.Native.Char.{Char, char, code, IsScalar}
use Prim.Native.Nat.{Ordering, compare}
use zhangyu.Base.{ℕ, ◌+◌, ◌≡◌, refl, arith, Bool, true, false, ◌&&◌, leb, ltb}
use zhangyu.Base.Text.{CaseTable, is_space}

compare-lt : (a b : ℕ) → ltb a b ≡ true → compare a b ≡ Ordering.lt
compare-lt a b h = ground arith

pub letter-IsScalar : (n : ℕ) → leb 65 n && leb n 90 ≡ true → IsScalar (n + 32)
letter-IsScalar n h = rw (compare-lt (n + 32) 55296 (ground arith)) tt

unfoldable pub lower_letter : (n : ℕ) → IsScalar n → (b : Bool) → leb 65 n && leb n 90 ≡ b → Char
lower_letter n s true h = char (n + 32) (letter-IsScalar n h)
lower_letter n s false h = char n s

unfoldable pub ascii_lower : Char → Char
unfolding lower_letter
ascii_lower (char n s) = lower_letter n s (leb 65 n && leb n 90) refl

lower_letter-keeps :
    (n : ℕ) (s : IsScalar n) (b : Bool) (h : leb 65 n && leb n 90 ≡ b)
    → b ≡ false
    → lower_letter n s b h ≡ char n s
unfolding lower_letter
lower_letter-keeps n s true h e = absurd (ground arith)
lower_letter-keeps n s false h e = refl

lower_letter_again :
    (n : ℕ) (s : IsScalar n) (b : Bool) (h : leb 65 n && leb n 90 ≡ b)
    → ascii_lower (lower_letter n s b h) ≡ lower_letter n s b h
unfolding lower_letter ascii_lower
lower_letter_again n s true h =
    lower_letter-keeps (n + 32) (letter-IsScalar n h) _ refl (ground arith)
lower_letter_again n s false h = lower_letter-keeps n s _ refl h

lower_letter_space :
    (n : ℕ) (s : IsScalar n) (b : Bool) (h : leb 65 n && leb n 90 ≡ b)
    → is_space (code (lower_letter n s b h)) ≡ is_space n
unfolding lower_letter is_space
lower_letter_space n s true h = ground arith
lower_letter_space n s false h = refl

pub ascii_lower_idem : (c : Char) → ascii_lower (ascii_lower c) ≡ ascii_lower c
unfolding ascii_lower
ascii_lower_idem (char n s) = lower_letter_again n s _ refl

pub ascii_lower_space : (c : Char) → is_space (code (ascii_lower c)) ≡ is_space (code c)
unfolding ascii_lower
ascii_lower_space (char n s) = lower_letter_space n s _ refl

abbrev pub ascii : CaseTable
ascii = record {
  lower = ascii_lower;
  lower_idem = ascii_lower_idem;
  lower_space = ascii_lower_space;
}
