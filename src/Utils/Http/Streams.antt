-- ===== src/Utils/Http/Streams.antt =====
-- utils/http.go: `HttpReader` and `HttpWriter`, over streams of bytes. What `compress/gzip` does is an
-- interface.

use zhangyu.Base.{
  ℕ, String, ◌≡◌, Option, none, some, List, [], ◌∷◌, ◌++◌, Run, returns, panics, ◌>>=◌, take, drop,
  concat, ◌≢◌, if◌then◌else◌,
}
use zhangyu.Utils.Http.{HttpHeader, is_gzip}

-- The errors that end a stream: `io.EOF`, and `io.ErrUnexpectedEOF`.
pub data ReadError : Type 0 where
  eof unexpected_eof : ReadError

-- A read of at most some bytes from a buffer: what is left, what it gives, and its error.
unfoldable pub take_from : ReadError → List ℕ → ℕ → List ℕ × List ℕ × Option ReadError
take_from e [] n = ([], [], some e)
take_from e (b ∷ bs) n = (drop n (b ∷ bs), take n (b ∷ bs), none)

-- `gzip.Writer`, by what a `Write` with its `Flush` puts on the stream below, and `gzip.Reader`, which is made
-- of the bytes of its source, unless they do not begin as they should.
pub record Gzip : Type 1 where
  pub Writer : Type 0
  pub Reader : Type 0
  pub new_writer : Writer
  pub write_flush : Writer → List ℕ → Writer × List ℕ
  pub new_reader : List ℕ → Option Reader
  pub read : Reader → ℕ → Reader × List ℕ × Option ReadError
  -- All the bytes that a reader still gives, and the error after them.
  pub rest : Reader → List ℕ
  pub fault : Reader → ReadError
  pub read-rest : (r : Reader) (n : ℕ) → (read r n).1 ++ rest (read r n).0 ≡ rest r
  pub read-fault : (r : Reader) (n : ℕ) → fault (read r n).0 ≡ fault r
  -- While there are bytes a read for some gives some, and it gives the error after them, or with the last.
  pub read_some : (r : Reader) (n : ℕ) → rest r ≢ [] → n ≢ 0 → (read r n).1 ≢ []
  pub read_error :
      (r : Reader) (n : ℕ) (e : ReadError)
      → (read r n).2 ≡ some e
      → (rest (read r n).0 ≡ []) × (e ≡ fault r)
  pub read_end : (r : Reader) (n : ℕ) → rest r ≡ [] → n ≢ 0 → (read r n).2 ≡ some (fault r)
  -- What was written and flushed, in any pieces, can be read; a stream that was not closed ends too early.
  pub flushed : Writer → List (List ℕ) → List ℕ
  pub flushed_none : (w : Writer) → flushed w [] ≡ []
  pub flushed_some :
      (w : Writer) (p : List ℕ) (ps : List (List ℕ))
      → flushed w (p ∷ ps) ≡ (write_flush w p).1 ++ flushed (write_flush w p).0 ps
  pub read_flushed :
      (p : List ℕ) (ps : List (List ℕ))
      → (r : Reader) × (new_reader (flushed new_writer (p ∷ ps)) ≡ some r)
        × (rest r ≡ p ++ concat ps)
        × (fault r ≡ unexpected_eof)

-- What `WriteResponse` writes: its type, its status and its body.
pub record TextResponse : Type 0 where
  content_type : String
  pub status : ℕ
  pub body : String

unfoldable pub write_response : String → TextResponse
write_response msg = record { content_type = "text/plain; charset=utf-8"; status = 200; body = msg }

module _ (gzip : Gzip) where
  open gzip use {Writer, Reader}

  pub record HttpReader : Type 0 where
    pub reader : List ℕ
    pub gzip_reader : Option Reader
    pub header : HttpHeader

  pub record HttpWriter : Type 0 where
    pub writer : List ℕ
    pub gzip_writer : Option Writer
    pub header : HttpHeader

  -- `NewRequestReader` and `NewResponseReader`, and the two writers, alike but for where the header is from.
  abbrev pub new_reader : HttpHeader → List ℕ → HttpReader
  new_reader header body = record { reader = body; gzip_reader = none; header = header }

  abbrev pub new_writer : HttpHeader → List ℕ → HttpWriter
  new_writer header below = record { writer = below; gzip_writer = none; header = header }

  -- What `Read` gives: the reader, the bytes and the error.
  abbrev pub ReadResult : Type 0
  ReadResult = HttpReader × List ℕ × Option ReadError

  abbrev pub read_gzip : HttpReader → ℕ → Reader → ReadResult
  read_gzip s n g = let got = gzip.read g n in (record s { gzip_reader = some got.0 }, got.1, got.2)

  abbrev pub read_plain : HttpReader → ℕ → ReadResult
  read_plain s n = let got = take_from eof s.reader n in (record s { reader = got.0 }, got.1, got.2)

  abbrev read_made : HttpReader → ℕ → Option Reader → Run ReadResult
  read_made s n none = panics
  read_made s n (some g) = returns (read_gzip s n g)

  abbrev read_unzipped : HttpReader → ℕ → Option Reader → Run ReadResult
  read_unzipped s n (some g) = returns (read_gzip s n g)
  read_unzipped s n none = read_made s n (gzip.new_reader s.reader)

  -- `Read`, of a body that is a buffer: an error of `gzip.NewReader` is dropped, and leaves a nil pointer.
  unfoldable pub http_read : HttpReader → ℕ → Run ReadResult
  http_read s n =
      if is_gzip s.header then read_unzipped s n s.gzip_reader else returns (read_plain s n)

  abbrev pub made_writer : Option Writer → Writer
  made_writer none = gzip.new_writer
  made_writer (some g) = g

  -- `Write`, where the writer below takes all that it is given.
  unfoldable pub http_write : HttpWriter → List ℕ → HttpWriter
  http_write s p =
      let zipped = gzip.write_flush (made_writer s.gzip_writer) p in
      if is_gzip s.header
      then record s { gzip_writer = some zipped.0; writer = s.writer ++ zipped.1 }
      else record s { writer = s.writer ++ p }

  -- Writes, one after the other.
  unfoldable pub write_all : HttpWriter → List (List ℕ) → HttpWriter
  write_all s [] = s
  write_all s (p ∷ ps) = write_all (http_write s p) ps

  -- Reads of some sizes, up to the first error.
  unfoldable pub read_all : HttpReader → List ℕ → Run ReadResult
  read_all s [] = returns (s, [], none)
  read_all s (n ∷ ns) = do
    first ← http_read s n
    elim first.2 [
      | some e ↦ returns first
      | none ↦ do later ← read_all first.0 ns; returns (later.0, first.1 ++ later.1, later.2)
    ]
