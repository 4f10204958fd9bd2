-- ===== src/Samples/StreamTests.antt =====
-- utils/http.go: readers and writers at concrete inputs.
use zhangyu.Base.{
  ◌≡◌, refl, true, none, some, arith, [], ◌∷◌, ◌++◌, concat, panics, if◌then◌else◌, ◌==◌, returns,
}
use zhangyu.Utils.Http.{HttpHeader, is_gzip, contains}
use zhangyu.Utils.Http.Streams.{HttpReader, new_reader, new_writer, http_read, write_all, read_all}
use zhangyu.Utils.Http.Trips.{end_of, read_all-write_all, http_read_malformed}
use zhangyu.Samples.Zipped.{marks, mark_read}

abbrev zipped : HttpHeader
zipped key = if key == "Content-Encoding" then "gzip" else ""

read_all-write_all_example :
    (s' : HttpReader marks) × (read_all marks
        (new_reader marks zipped
          (write_all marks (new_writer marks zipped []) ((1 ∷ 2 ∷ []) ∷ (3 ∷ []) ∷ [])).writer)
        (2 ∷ 4 ∷ 4 ∷ 4 ∷ [])
      ≡ returns (s', (1 ∷ 2 ∷ []) ++ concat ((3 ∷ []) ∷ []), some (end_of zipped)))
read_all-write_all_example =
    read_all-write_all marks zipped (1 ∷ 2 ∷ []) ((3 ∷ []) ∷ []) (2 ∷ 4 ∷ 4 ∷ 4 ∷ []) (ground arith)
      (omega arith)

zipped_fits : is_gzip zipped ≡ true
unfolding is_gzip contains
zipped_fits = refl

plain_refused : mark_read (7 ∷ []) ≡ none
unfolding mark_read
plain_refused = refl

malformed : http_read marks (new_reader marks zipped (7 ∷ [])) 4 ≡ panics
malformed = http_read_malformed marks zipped (7 ∷ []) 4 zipped_fits plain_refused
