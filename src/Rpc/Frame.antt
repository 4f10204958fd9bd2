-- ===== src/Rpc/Frame.antt =====
-- rpc/invoke.go, `writeInvokeData` and `readInvokeStr`: a message on a stream is eight bytes with its
-- length, the high byte first, and then its bytes. A stream is the list of the bytes still to be read,
-- and ends where the list does.
pub mod Laws
use zhangyu.Base.{
  ℕ, zero, suc, String, Bool, true, false, Option, none, some, List, [], ◌∷◌, ◌++◌, length, ltb,
  ◌||◌, if◌then◌else◌, Run, returns, panics, ◌>>=◌,
}
use zhangyu.Utils.Bytes.{int_to_bytes, bytes_to_int, is_negative}

-- The errors of `io.ReadFull`: nothing was read, or less than was asked for.
pub data ReadError : Type 0 where
  eof unexpected_eof : ReadError

pub data Read {ℓ} (A : Type ℓ) : Type ℓ where
  got : A → List ℕ → Read A
  failed : ReadError → Read A

-- What `io.ReadFull` finds after some bytes: at the end of the stream the error depends on whether
-- there was any.
unfoldable pub read_rest : Bool → ℕ → List ℕ → Read (List ℕ)
read_rest some_read zero s = got [] s
read_rest some_read (suc n) [] = failed (if some_read then unexpected_eof else eof)
read_rest some_read (suc n) (b ∷ s) = elim (read_rest true n s) [
  | got bs rest ↦ got (b ∷ bs) rest
  | failed e ↦ failed e
]

-- `io.ReadFull` into a buffer of `n` bytes.
unfoldable pub read_full : ℕ → List ℕ → Read (List ℕ)
unfolding read_rest
read_full n s = read_rest false n s

module _ (max_len : ℕ) where
  -- `make([]byte, l)`, which panics if `l` is negative or larger than the runtime allows, and
  -- `io.ReadFull` into it.
  unfoldable pub read_body : ℕ → List ℕ → Run (Read (List ℕ))
  unfolding is_negative
  read_body l s = if is_negative l || ltb max_len l then panics else returns (read_full l s)

  -- `readInvokeStr`.
  unfoldable pub read_invoke_str : List ℕ → Run (Read (List ℕ))
  read_invoke_str s = elim (read_full 8 s) [
    | failed e ↦ returns (failed e)
    | got len_bytes rest ↦ read_body (bytes_to_int len_bytes) rest
  ]

  -- The loop of a reader over `n` messages.
  unfoldable pub read_many : ℕ → List ℕ → Run (Read (List (List ℕ)))
  read_many zero s = returns (got [] s)
  read_many (suc n) s = elim (read_invoke_str s) [
    | panics ↦ panics
    | returns (failed e) ↦ returns (failed e)
    | returns (got body rest) ↦ elim (read_many n rest) [
      | panics ↦ panics
      | returns (failed e) ↦ returns (failed e)
      | returns (got bodies rest') ↦ returns (got (body ∷ bodies) rest')
    ]
  ]

-- `writeInvokeData`: the bytes that one call puts on the stream.
unfoldable pub write_frame : List ℕ → List ℕ
write_frame body = int_to_bytes (length body) ++ body

-- The bytes of several calls, which the writer lock keeps apart.
unfoldable pub write_many : List (List ℕ) → List ℕ
write_many [] = []
write_many (body ∷ bodies) = write_frame body ++ write_many bodies
