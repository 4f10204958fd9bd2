-- ===== src/Utils/Http/Trips.antt =====
-- utils/http.go: what an `HttpReader` reads of what an `HttpWriter` has written.
use mathlib.Core.List.{append_assoc, append-nil}
use zhangyu.Base.{
  ℕ, ◌<◌, ◌≡◌, ◌≢◌, refl, sym, ap, ◌∙◌, true, false, none, some, List, [], ◌∷◌, ◌++◌, All, returns,
  panics, length, concat, if◌then◌else◌, Bool-cases, inl, inr,
}
use zhangyu.Utils.Http.{HttpHeader, is_gzip}
use zhangyu.Utils.Http.Streams.{
  Gzip, ReadError, eof, unexpected_eof, HttpReader, HttpWriter, new_reader, new_writer, made_writer,
  http_read, http_write, write_all, read_all,
}
use zhangyu.Utils.Http.Reads.{of_made, rest_of, read_to_end}

-- The error after what was written under a header.
abbrev pub end_of : HttpHeader → ReadError
end_of header = if is_gzip header then unexpected_eof else eof

module _ (gzip : Gzip) where
  write_plain :
      (s : HttpWriter gzip) (p : List ℕ)
      → is_gzip s.header ≡ false
      → http_write gzip s p ≡ record s { writer = s.writer ++ p }
  unfolding http_write
  write_plain s p plain = rw (plain, http_write) refl

  -- A writer that has written some bytes as gzip.
  abbrev zipped_on : HttpWriter gzip → List ℕ → HttpWriter gzip
  zipped_on s p =
      let z = gzip.write_flush (made_writer gzip s.gzip_writer) p in
      record s { gzip_writer = some z.0; writer = s.writer ++ z.1 }

  write_zipped :
      (s : HttpWriter gzip) (p : List ℕ)
      → is_gzip s.header ≡ true
      → http_write gzip s p ≡ zipped_on s p
  unfolding http_write
  write_zipped s p zipped = rw (zipped, http_write) refl

  writes_plain :
      (s : HttpWriter gzip) (ps : List (List ℕ))
      → is_gzip s.header ≡ false
      → (write_all gzip s ps).writer ≡ s.writer ++ concat ps
  unfolding write_all
  writes_plain s [] plain = sym (append-nil _)
  writes_plain s (p ∷ ps) plain =
      ap (λ (t : HttpWriter gzip). (write_all gzip t ps).writer) (write_plain s p plain)
      ∙ writes_plain (record s { writer = s.writer ++ p }) ps plain
      ∙ append_assoc s.writer p (concat ps)

  writes_zipped :
      (s : HttpWriter gzip) (ps : List (List ℕ))
      → is_gzip s.header ≡ true
      → (write_all gzip s ps).writer ≡ s.writer ++ gzip.flushed (made_writer gzip s.gzip_writer) ps
  unfolding write_all
  writes_zipped s [] zipped =
      rw (gzip.flushed_none (made_writer gzip s.gzip_writer)) (sym (append-nil _))
  writes_zipped s (p ∷ ps) zipped =
      let z = gzip.write_flush (made_writer gzip s.gzip_writer) p in
      ap (λ (t : HttpWriter gzip). (write_all gzip t ps).writer) (write_zipped s p zipped)
      ∙ writes_zipped (zipped_on s p) ps zipped
      ∙ append_assoc s.writer z.1 (gzip.flushed z.0 ps)
      ∙ ap (λ l. s.writer ++ l) (sym (gzip.flushed_some (made_writer gzip s.gzip_writer) p ps))

  written :
      (header : HttpHeader) (p : List ℕ) (ps : List (List ℕ))
      → rest_of gzip
          (new_reader gzip header (write_all gzip (new_writer gzip header []) (p ∷ ps)).writer)
        ≡ some (p ++ concat ps, end_of header)
  unfolding rest_of
  written header p ps = elim (Bool-cases (is_gzip header)) [
    | inr plain ↦
        rw plain (ap (λ l. some (l, eof)) (writes_plain (new_writer gzip header []) (p ∷ ps) plain))
    | inl zipped ↦
        let (g, made, whole, broken) = gzip.read_flushed p ps in
        rw zipped (
          ap (λ l. of_made gzip (gzip.new_reader l))
            (writes_zipped (new_writer gzip header []) (p ∷ ps) zipped)
          ∙ ap (of_made gzip) made
          ∙ ap (λ l. some (l, gzip.fault g)) whole
          ∙ ap (λ e. some (p ++ concat ps, e)) broken)
  ]

  -- Bytes that are written in pieces through an `HttpWriter`, at least one piece, are read back
  -- through an `HttpReader` with the same header, whether or not it says gzip: reads of any sizes
  -- but zero, up to the first error and more of them than there are bytes, give all of the bytes in
  -- order, and then an error. The error is `io.EOF` for a plain body, and `io.ErrUnexpectedEOF` for
  -- gzip. The writer below takes all that it is given, and the body that is read is a buffer.
  pub read_all-write_all :
      (header : HttpHeader) (p : List ℕ) (ps : List (List ℕ)) (ns : List ℕ)
      → All (λ n. n ≢ 0) ns
      → length (p ++ concat ps) < length ns
      → (s' : HttpReader gzip) × (read_all gzip
            (new_reader gzip header (write_all gzip (new_writer gzip header []) (p ∷ ps)).writer)
            ns
          ≡ returns (s', p ++ concat ps, some (end_of header)))
  read_all-write_all header p ps ns pos more =
      read_to_end gzip _ ns _ (end_of header) (written header p ps) pos more

  -- A read of a body whose header says gzip, but from which no gzip reader can be made, panics.
  pub http_read_malformed :
      (header : HttpHeader) (body : List ℕ) (n : ℕ)
      → is_gzip header ≡ true
      → gzip.new_reader body ≡ none
      → http_read gzip (new_reader gzip header body) n ≡ panics
  unfolding http_read
  http_read_malformed header body n zipped bad = rw (zipped, bad) refl
