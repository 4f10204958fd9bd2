-- ===== src/Rpc/Frame/Laws.antt =====
-- rpc/invoke.go: theorems about `writeInvokeData` and `readInvokeStr`.
use zhangyu.Base.{
  append_split, length-append, ℕ, zero, suc, ◌^◌, ◌≤◌, ◌<◌, Bool, true, false, List, [], ◌∷◌, ◌++◌,
  length, returns, panics, ◌≡◌, refl, ap, ◌∙◌, arith, All,
}
use mathlib.Core.List.{append_assoc}
use zhangyu.Utils.Bytes.{bytes_to_int_trip, length-int_to_bytes, int_to_bytes, is_negative}
use native.Mathlib.Decide.{dec_lt}
use zhangyu.Rpc.Frame.{
  ReadError, got, failed, read_rest, read_full, read_body, read_invoke_str, read_many, write_frame,
  write_many,
}

read_rest-append :
    (b : Bool) (xs rest : List ℕ) → read_rest b (length xs) (xs ++ rest) ≡ got xs rest
unfolding read_rest
read_rest-append b [] rest = refl
read_rest-append b (x ∷ xs) rest = rw (read_rest-append true xs rest)

-- A stream with fewer bytes than wanted is an error.
read_rest_short :
    (b : Bool) (n : ℕ) (s : List ℕ) → length s < n → (e : ReadError) × (read_rest b n s ≡ failed e)
unfolding read_rest
read_rest_short b zero s h = elim h [ ]
read_rest_short b (suc n) [] h = (_, refl)
read_rest_short b (suc n) (x ∷ s) h =
    let (e, p) = read_rest_short true n s (omega arith) in (e, rw p)

read_full-header :
    (n : ℕ) (rest : List ℕ) → read_full 8 (int_to_bytes n ++ rest) ≡ got (int_to_bytes n) rest
unfolding read_full int_to_bytes
read_full-header n rest = read_rest-append false (int_to_bytes n) rest

read_full_failed :
    (n : ℕ) (s : List ℕ) (e : ReadError) → read_rest false n s ≡ failed e → read_full n s ≡ failed e
unfolding read_full
read_full_failed n s e p = p

module _ (max_len : ℕ) where
  read_body_fits :
      (l : ℕ) (s : List ℕ)
      → l ≤ max_len
      → max_len < 2 ^ 63
      → read_body max_len l s ≡ returns (read_full l s)
  unfolding read_body is_negative
  read_body_fits l s h k = ground arith

  read_body_misfit : (l : ℕ) (s : List ℕ) → max_len < l → read_body max_len l s ≡ panics
  unfolding read_body is_negative
  read_body_misfit l s h = ground arith

  read_invoke_str-header :
      (n : ℕ) (s : List ℕ)
      → n < 2 ^ 64
      → read_invoke_str max_len (int_to_bytes n ++ s) ≡ read_body max_len n s
  unfolding read_invoke_str
  read_invoke_str-header n s h =
      rw (read_full-header n s, read_invoke_str)
        (ap (λ l. read_body max_len l s) (bytes_to_int_trip n h))

  -- A reader gets exactly the body that was written, and what follows stays on the stream.
  pub read_invoke_str-write_frame :
      (body rest : List ℕ)
      → length body ≤ max_len
      → max_len < 2 ^ 63
      → read_invoke_str max_len (write_frame body ++ rest) ≡ returns (got body rest)
  unfolding write_frame read_full
  read_invoke_str-write_frame body rest h k =
      rw (append_assoc (int_to_bytes (length body)) body rest) (
        read_invoke_str-header (length body) (body ++ rest) (omega arith)
        ∙ read_body_fits (length body) (body ++ rest) h k
        ∙ ap returns (read_rest-append false body rest))

  -- Messages no longer than a slice can be, written one after the other, are read back in their
  -- order, none lost or mixed, and what follows stays on the stream.
  pub read_many-write_many :
      (bodies : List (List ℕ)) (rest : List ℕ)
      → All (λ body. length body ≤ max_len) bodies
      → max_len < 2 ^ 63
      → read_many max_len (length bodies) (write_many bodies ++ rest) ≡ returns (got bodies rest)
  unfolding read_many write_many
  read_many-write_many [] rest h k = refl
  read_many-write_many (body ∷ bodies) rest h k = rw (
    append_assoc (write_frame body) (write_many bodies) rest,
    read_invoke_str-write_frame body (write_many bodies ++ rest) h.0 k,
    read_many-write_many bodies rest h.1 k,
    read_many,
  )

  -- A stream that ends inside the frame of a message that is no longer than a slice can be gives
  -- the reader an error, never a shorter message.
  read_invoke_str_short :
      (body s : List ℕ) (lost : List ℕ)
      → write_frame body ≡ s ++ lost
      → 0 < length lost
      → length body ≤ max_len
      → max_len < 2 ^ 63
      → (e : ReadError) × (read_invoke_str max_len s ≡ returns (failed e))
  unfolding write_frame read_invoke_str
  read_invoke_str_short body s lost e some_lost h k = elim (dec_lt (length s) 8) [
    | yes few ↦
        let (err, p) = read_rest_short false 8 s few in
        (err, rw (read_full_failed 8 s err p, read_invoke_str))
    | no enough ↦
        let (t, s-eq, body-eq) =
          append_split (int_to_bytes (length body)) body s lost e
            (omega (arith, length-int_to_bytes (length body))) in
        let (err, p) =
          read_rest_short false (length body) t
            (omega (arith, ap length body-eq, length-append t lost)) in
        (
          err,
          rw s-eq (
              read_invoke_str-header (length body) t (omega arith)
              ∙ read_body_fits (length body) t h k
              ∙ ap returns (read_full_failed (length body) t err p)),
        )
  ]

  -- On a 64-bit length that is larger than a slice can be, negative numbers among them, the reader
  -- panics and gives no error.
  pub read_invoke_str_misfit :
      (n : ℕ) (rest : List ℕ)
      → n < 2 ^ 64
      → max_len < n
      → read_invoke_str max_len (int_to_bytes n ++ rest) ≡ panics
  read_invoke_str_misfit n rest h k = read_invoke_str-header n rest h ∙ read_body_misfit n rest k
