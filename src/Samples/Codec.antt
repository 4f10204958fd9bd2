-- ===== src/Samples/Codec.antt =====
-- A text for every document and back, to stand in for `encoding/json` in tests.
use Prim.Native.Char.{Char, code}
use Prim.Native.String.{char_at}
use zhangyu.Base.{
  ℕ, zero, suc, ◌+◌, String, ◌≡◌, refl, Option, none, some, nat_eq, true, false, ◌≤◌, arith,
}
use zhangyu.Base.Strings.{text_length}
use zhangyu.Utils.Json.{
  Json, null, num, stamp, str, arr, obj, Items, nil, cons, Fields, end, field, JsonText,
}

infixl 5 ◌>>=◌
abbrev ◌>>=◌ {ℓ κ} : {A : Type ℓ} {B : Type κ} → Option A → (A → Option B) → Option B
none >>= f = none
some a >>= f = f a

mark : ℕ → Char
mark n = char_at "n#t'[]{},.:" n

encode_number : ℕ → String → String
unfolding mark
encode_number zero r = String.◌∷◌ (mark 9) r
encode_number (suc n) r = String.◌∷◌ (mark 10) (encode_number n r)

encode_string : String → String → String
unfolding mark
encode_string String.[] r = String.◌∷◌ (mark 9) r
encode_string (String.◌∷◌ c s) r = String.◌∷◌ (mark 10) (String.◌∷◌ c (encode_string s r))

mutual
  unfolding mark encode_number encode_string

  encode : Json → String → String
  encode null r = String.◌∷◌ (mark 0) r
  encode (num n) r = String.◌∷◌ (mark 1) (encode_number n r)
  encode (stamp n) r = String.◌∷◌ (mark 2) (encode_number n r)
  encode (str s) r = String.◌∷◌ (mark 3) (encode_string s r)
  encode (arr vs) r = String.◌∷◌ (mark 4) (encode_items vs r)
  encode (obj fs) r = String.◌∷◌ (mark 6) (encode_fields fs r)

  encode_items : Items → String → String
  encode_items nil r = String.◌∷◌ (mark 5) r
  encode_items (cons v vs) r = String.◌∷◌ (mark 8) (encode v (encode_items vs r))

  encode_fields : Fields → String → String
  encode_fields end r = String.◌∷◌ (mark 7) r
  encode_fields (field k v fs) r =
      String.◌∷◌ (mark 8) (encode_string k (encode v (encode_fields fs r)))

decode_number : String → Option (ℕ × String)
decode_number String.[] = none
decode_number (String.◌∷◌ c r) = elim (nat_eq (code c) b'.') [
  | true ↦ some (0, r)
  | false ↦ decode_number r >>= λ p. some (suc p.0, p.1)
]

decode_string : String → Option (String × String)
decode_string String.[] = none
decode_string (String.◌∷◌ c String.[]) = elim (nat_eq (code c) b'.') [
  | true ↦ some (String.[], String.[])
  | false ↦ none
]
decode_string (String.◌∷◌ c (String.◌∷◌ d r)) = elim (nat_eq (code c) b'.') [
  | true ↦ some (String.[], String.◌∷◌ d r)
  | false ↦ decode_string r >>= λ p. some (String.◌∷◌ d p.0, p.1)
]

mutual
  unfolding decode_number decode_string

  decode : ℕ → String → Option (Json × String)
  decode zero s = none
  decode (suc f) String.[] = none
  decode (suc f) (String.◌∷◌ c r) = elim (nat_eq (code c) b'n') [
    | true ↦ some (null, r)
    | false ↦ elim (nat_eq (code c) b'#') [
      | true ↦ decode_number r >>= λ p. some (num p.0, p.1)
      | false ↦ elim (nat_eq (code c) b't') [
        | true ↦ decode_number r >>= λ p. some (stamp p.0, p.1)
        | false ↦ elim (nat_eq (code c) 39) [
          | true ↦ decode_string r >>= λ p. some (str p.0, p.1)
          | false ↦ elim (nat_eq (code c) b'[') [
            | true ↦ decode_items f r >>= λ p. some (arr p.0, p.1)
            | false ↦ decode_fields f r >>= λ p. some (obj p.0, p.1)
          ]
        ]
      ]
    ]
  ]

  decode_items : ℕ → String → Option (Items × String)
  decode_items zero s = none
  decode_items (suc f) String.[] = none
  decode_items (suc f) (String.◌∷◌ c r) = elim (nat_eq (code c) b']') [
    | true ↦ some (nil, r)
    | false ↦ decode f r >>= λ p. decode_items f p.1 >>= λ q. some (cons p.0 q.0, q.1)
  ]

  decode_fields : ℕ → String → Option (Fields × String)
  decode_fields zero s = none
  decode_fields (suc f) String.[] = none
  decode_fields (suc f) (String.◌∷◌ c r) = elim (nat_eq (code c) b'}') [
    | true ↦ some (end, r)
    | false ↦ decode_string r >>= λ k.
        decode f k.1 >>= λ p. decode_fields f p.1 >>= λ q. some (field k.0 p.0 q.0, q.1)
  ]

decode_number-encode : (n : ℕ) (r : String) → decode_number (encode_number n r) ≡ some (n, r)
unfolding decode_number encode_number
decode_number-encode zero r = refl
decode_number-encode (suc n) r = rw (decode_number-encode n r)

decode_string-encode : (s r : String) → decode_string (encode_string s r) ≡ some (s, r)
unfolding decode_string encode_string
decode_string-encode String.[] String.[] = refl
decode_string-encode String.[] (String.◌∷◌ c r) = refl
decode_string-encode (String.◌∷◌ c s) r = rw (decode_string-encode s r)

-- How deep the decoder calls itself.
mutual
  depth : Json → ℕ
  depth (arr vs) = suc (depth_items vs)
  depth (obj fs) = suc (depth_fields fs)
  depth _ = 1

  depth_items : Items → ℕ
  depth_items nil = 1
  depth_items (cons v vs) = suc (depth v + depth_items vs)

  depth_fields : Fields → ℕ
  depth_fields end = 1
  depth_fields (field k v fs) = suc (depth v + depth_fields fs)

mutual
  unfolding encode decode depth

  decode-encode :
      (f : ℕ) (j : Json) (r : String) → depth j ≤ f → decode f (encode j r) ≡ some (j, r)
  decode-encode zero null r h = absurd (omega arith)
  decode-encode zero (num n) r h = absurd (omega arith)
  decode-encode zero (stamp n) r h = absurd (omega arith)
  decode-encode zero (str s) r h = absurd (omega arith)
  decode-encode zero (arr vs) r h = absurd (omega arith)
  decode-encode zero (obj fs) r h = absurd (omega arith)
  decode-encode (suc f) null r h = refl
  decode-encode (suc f) (num n) r h = rw (decode_number-encode n r)
  decode-encode (suc f) (stamp n) r h = rw (decode_number-encode n r)
  decode-encode (suc f) (str s) r h = rw (decode_string-encode s r)
  decode-encode (suc f) (arr vs) r h = rw (decode_items-encode f vs r (omega arith))
  decode-encode (suc f) (obj fs) r h = rw (decode_fields-encode f fs r (omega arith))

  decode_items-encode :
      (f : ℕ) (vs : Items) (r : String)
      → depth_items vs ≤ f
      → decode_items f (encode_items vs r) ≡ some (vs, r)
  decode_items-encode zero nil r h = absurd (omega arith)
  decode_items-encode zero (cons v vs) r h = absurd (omega arith)
  decode_items-encode (suc f) nil r h = refl
  decode_items-encode (suc f) (cons v vs) r h = rw (
    decode-encode f v (encode_items vs r) (omega arith),
    decode_items-encode f vs r (omega arith),
  )

  decode_fields-encode :
      (f : ℕ) (fs : Fields) (r : String)
      → depth_fields fs ≤ f
      → decode_fields f (encode_fields fs r) ≡ some (fs, r)
  decode_fields-encode zero end r h = absurd (omega arith)
  decode_fields-encode zero (field k v fs) r h = absurd (omega arith)
  decode_fields-encode (suc f) end r h = refl
  decode_fields-encode (suc f) (field k v fs) r h = rw (
    decode_string-encode k (encode v (encode_fields fs r)),
    decode-encode f v (encode_fields fs r) (omega arith),
    decode_fields-encode f fs r (omega arith),
  )

encode_number-length : (n : ℕ) (r : String) → text_length r ≤ text_length (encode_number n r)
unfolding encode_number
encode_number-length zero r = omega arith
encode_number-length (suc n) r = omega (arith, encode_number-length n r)

encode_string-length : (s r : String) → text_length r ≤ text_length (encode_string s r)
unfolding encode_string
encode_string-length String.[] r = omega arith
encode_string-length (String.◌∷◌ c s) r = omega (arith, encode_string-length s r)

mutual
  unfolding encode depth

  depth-le : (j : Json) (r : String) → depth j + text_length r ≤ text_length (encode j r)
  depth-le null r = omega arith
  depth-le (num n) r = omega (arith, encode_number-length n r)
  depth-le (stamp n) r = omega (arith, encode_number-length n r)
  depth-le (str s) r = omega (arith, encode_string-length s r)
  depth-le (arr vs) r = omega (arith, depth_items-le vs r)
  depth-le (obj fs) r = omega (arith, depth_fields-le fs r)

  depth_items-le :
      (vs : Items) (r : String) → depth_items vs + text_length r ≤ text_length (encode_items vs r)
  depth_items-le nil r = omega arith
  depth_items-le (cons v vs) r = omega (arith, depth-le v (encode_items vs r), depth_items-le vs r)

  depth_fields-le :
      (fs : Fields) (r : String)
      → depth_fields fs + text_length r ≤ text_length (encode_fields fs r)
  depth_fields-le end r = omega arith
  depth_fields-le (field k v fs) r = omega (
    arith,
    encode_string-length k (encode v (encode_fields fs r)),
    depth-le v (encode_fields fs r),
    depth_fields-le fs r,
  )

unfoldable pub to_text : Json → String
unfolding encode
to_text j = encode j ""

unfoldable pub of_text : String → Option Json
unfolding decode
of_text s = elim (decode (text_length s) s) [ none ↦ none | some p ↦ some p.0 ]

pub of_text-to_text : (j : Json) → of_text (to_text j) ≡ some j
unfolding of_text to_text
of_text-to_text j =
    rw (decode-encode (text_length (encode j "")) j "" (omega (arith, depth-le j "")), of_text)

pub of_text-empty : of_text "" ≡ none
unfolding of_text
of_text-empty = refl

abbrev pub codec : JsonText
codec = record {
  to_text = to_text;
  of_text = of_text;
  of_text-to_text = of_text-to_text;
  of_text-empty = of_text-empty;
}
