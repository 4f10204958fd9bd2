-- ===== src/Utils/Strs.antt =====
-- utils/strs.go: random texts. What `rand.Intn` draws is an argument.
use Prim.Native.Char.{Char, nul}
use zhangyu.Base.{ℕ, zero, suc, ◌<◌, String, ◌≡◌, refl, ap, List, [], ◌∷◌, length, All}
use zhangyu.Base.Strings.{text_length}

-- `runes[i]` on a slice of characters.
abbrev rune_at : String → ℕ → Char
rune_at String.[] i = nul
rune_at (String.◌∷◌ c s) zero = c
rune_at (String.◌∷◌ c s) (suc i) = rune_at s i

-- The loop that the three functions share.
unfoldable rand_string : String → List ℕ → String
rand_string runes [] = ""
rand_string runes (n ∷ draws) = String.◌∷◌ (rune_at runes n) (rand_string runes draws)

abbrev full_runes : String
full_runes = "=-+*_abcdefghijklmnopqrstuvwxyzABCDEFGHIJKLMNOPQRSTUVWXYZ0123456789"

abbrev number_runes : String
number_runes = "0123456789"

abbrev letter_runes : String
letter_runes = "abcdefghijklmnopqrstuvwxyzABCDEFGHIJKLMNOPQRSTUVWXYZ"

-- `RandStringWithFullChar`, `RandStringWithNumberChar` and `RandStringWithLetterChar`.
unfoldable rand_string_with_full_char : List ℕ → String
unfolding rand_string
rand_string_with_full_char draws = rand_string full_runes draws

unfoldable rand_string_with_number_char : List ℕ → String
unfolding rand_string
rand_string_with_number_char draws = rand_string number_runes draws

unfoldable rand_string_with_letter_char : List ℕ → String
unfolding rand_string
rand_string_with_letter_char draws = rand_string letter_runes draws

-- Every character of a text is one of some characters.
abbrev Among : String → String → Type 0
Among runes String.[] = Unit
Among runes (String.◌∷◌ c s) =
    ((i : ℕ) × (i < text_length runes) × (c ≡ rune_at runes i)) × Among runes s

-- A random text is as long as the list of its draws, each below the number of characters to draw
-- from, and consists of these characters only.
rand_string-Among :
    (runes : String) (draws : List ℕ)
    → All (λ n. n < text_length runes) draws
    → (text_length (rand_string runes draws) ≡ length draws) × Among runes (rand_string runes draws)
unfolding rand_string
rand_string-Among runes [] h = (refl, tt)
rand_string-Among runes (n ∷ draws) h =
    let (size, among) = rand_string-Among runes draws h.1 in (ap suc size, ((n, h.0, refl), among))
