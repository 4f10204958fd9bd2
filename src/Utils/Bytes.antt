-- ===== src/Utils/Bytes.antt =====
-- utils/io.go: an `int` as eight bytes, the high byte first, and back. An `int` is its 64-bit
-- pattern: the patterns from 2 ^ 63 are the negative numbers.
use zhangyu.Base.{
  length, ℕ, ◌+◌, ◌*◌, ◌/◌, ◌%◌, ◌^◌, ◌<◌, ◌≡◌, refl, Bool, List, [], ◌∷◌, ◌++◌, arith, leb, All,
}

-- `IntToBytes`.
unfoldable pub int_to_bytes : ℕ → List ℕ
int_to_bytes n =
    (n / 2 ^ 56 % 256)
    ∷ (n / 2 ^ 48 % 256)
    ∷ (n / 2 ^ 40 % 256)
    ∷ (n / 2 ^ 32 % 256)
    ∷ (n / 2 ^ 24 % 256)
    ∷ (n / 2 ^ 16 % 256)
    ∷ (n / 2 ^ 8 % 256)
    ∷ (n % 256)
    ∷ []

-- `BytesToInt`: `binary.Read` takes the first eight bytes, and leaves 0 where there are fewer.
unfoldable pub bytes_to_int : List ℕ → ℕ
bytes_to_int (a ∷ b ∷ c ∷ d ∷ e ∷ f ∷ g ∷ h ∷ _) =
    a * 2 ^ 56 + b * 2 ^ 48 + c * 2 ^ 40 + d * 2 ^ 32 + e * 2 ^ 24 + f * 2 ^ 16 + g * 2 ^ 8 + h
bytes_to_int _ = 0

-- Whether the pattern stands for a negative number.
unfoldable pub is_negative : ℕ → Bool
is_negative n = leb (2 ^ 63) n

-- Every 64-bit number survives the trip.
bytes_to_int-int_to_bytes :
    (n : ℕ) (rest : List ℕ) → n < 2 ^ 64 → bytes_to_int (int_to_bytes n ++ rest) ≡ n
unfolding bytes_to_int int_to_bytes
bytes_to_int-int_to_bytes n rest h = omega arith

pub bytes_to_int_trip : (n : ℕ) → n < 2 ^ 64 → bytes_to_int (int_to_bytes n) ≡ n
unfolding bytes_to_int int_to_bytes
bytes_to_int_trip n h = omega arith

pub length-int_to_bytes : (n : ℕ) → length (int_to_bytes n) ≡ 8
unfolding int_to_bytes
length-int_to_bytes n = refl

-- Eight bytes, each below 256, that are read as a number and written again are the same eight
-- bytes.
int_to_bytes-bytes_to_int :
    (a b c d e f g h : ℕ)
    → All (λ x. x < 256) (a ∷ b ∷ c ∷ d ∷ e ∷ f ∷ g ∷ h ∷ [])
    → int_to_bytes (bytes_to_int (a ∷ b ∷ c ∷ d ∷ e ∷ f ∷ g ∷ h ∷ []))
      ≡ a ∷ b ∷ c ∷ d ∷ e ∷ f ∷ g ∷ h ∷ []
unfolding bytes_to_int int_to_bytes
int_to_bytes-bytes_to_int a b c d e f g h s = ground arith

-- `IntToByteArray`: the bytes in memory of a little-endian machine, the low byte first.
unfoldable int_to_byte_array : ℕ → List ℕ
int_to_byte_array n =
    (n % 256)
    ∷ (n / 2 ^ 8 % 256)
    ∷ (n / 2 ^ 16 % 256)
    ∷ (n / 2 ^ 24 % 256)
    ∷ (n / 2 ^ 32 % 256)
    ∷ (n / 2 ^ 40 % 256)
    ∷ (n / 2 ^ 48 % 256)
    ∷ (n / 2 ^ 56 % 256)
    ∷ []

-- `ByteArrayToInt`, of up to eight bytes: those that are missing stay 0.
unfoldable byte_array_to_int : List ℕ → ℕ
byte_array_to_int [] = 0
byte_array_to_int (b ∷ bs) = b + 256 * byte_array_to_int bs

byte_array_trip : (n : ℕ) → n < 2 ^ 64 → byte_array_to_int (int_to_byte_array n) ≡ n
unfolding byte_array_to_int int_to_byte_array
byte_array_trip n h = omega arith
