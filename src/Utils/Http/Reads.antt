-- ===== src/Utils/Http/Reads.antt =====
-- utils/http.go: the reads of an `HttpReader`, up to the error that ends them.
use mathlib.Core.List.{append-nil}
use mathlib.Core.Option.{some-injective}
use zhangyu.Base.{
  ℕ, zero, suc, ◌<◌, ◌≡◌, ◌≢◌, ◌⊎◌, refl, sym, ap, ◌∙◌, true, false, Option, none, some, List, [],
  ◌∷◌, ◌++◌, All, Run, returns, length, length-append, take-append_drop, if◌then◌else◌, Bool-cases,
  Option-cases, inl, inr, arith,
}
use zhangyu.Utils.Http.{is_gzip}
use zhangyu.Utils.Http.Streams.{
  Gzip, ReadError, eof, take_from, HttpReader, ReadResult, read_gzip, read_plain, http_read,
  read_all,
}

pub take_from-rest :
    (e : ReadError) (r : List ℕ) (n : ℕ) → (take_from e r n).1 ++ (take_from e r n).0 ≡ r
unfolding take_from
take_from-rest e [] n = refl
take_from-rest e (b ∷ bs) n = take-append_drop n (b ∷ bs)

pub take_from-some :
    (e : ReadError) (r : List ℕ) (n : ℕ) → r ≢ [] → n ≢ 0 → (take_from e r n).1 ≢ []
unfolding take_from
take_from-some e [] n ne pos = absurd (ne refl)
take_from-some e (b ∷ bs) zero ne pos = absurd (pos refl)
take_from-some e (b ∷ bs) (suc n) ne pos = λ h. absurd (ground arith)

pub take_from-error :
    (e : ReadError) (r : List ℕ) (n : ℕ) (e' : ReadError)
    → (take_from e r n).2 ≡ some e'
    → ((take_from e r n).0 ≡ []) × (e' ≡ e)
unfolding take_from
take_from-error e [] n e' h = (refl, sym (some-injective _ _ h))
take_from-error e (b ∷ bs) n e' h = absurd (ground arith)

pub take_from-end : (e : ReadError) (r : List ℕ) (n : ℕ) → r ≡ [] → (take_from e r n).2 ≡ some e
unfolding take_from
take_from-end e [] n empty = refl
take_from-end e (b ∷ bs) n empty = absurd (ground arith)

module _ (gzip : Gzip) where
  open gzip use {Reader, Writer}

  -- What a reader still gives: its bytes and the error after them, unless it panics.
  abbrev pub of_made : Option Reader → Option (List ℕ × ReadError)
  of_made none = none
  of_made (some g) = some (gzip.rest g, gzip.fault g)

  abbrev of_zipped : List ℕ → Option Reader → Option (List ℕ × ReadError)
  of_zipped source (some g) = of_made (some g)
  of_zipped source none = of_made (gzip.new_reader source)

  unfoldable pub rest_of : HttpReader gzip → Option (List ℕ × ReadError)
  rest_of s = if is_gzip s.header then of_zipped s.reader s.gzip_reader else some (s.reader, eof)

  -- A read that gives some bytes and no error, or all bytes with the error after them.
  record IsRead (result : Run (ReadResult gzip)) (b : List ℕ) (e : ReadError) : Type 0 where
    left : HttpReader gzip
    got : List ℕ
    later : List ℕ
    error : Option ReadError
    done : result ≡ returns (left, got, error)
    still : rest_of left ≡ some (later, e)
    whole : got ++ later ≡ b
    ends : ((error ≡ none) × (got ≢ [])) ⊎ ((error ≡ some e) × (later ≡ []))

  gzip-IsRead :
      (s : HttpReader gzip) (n : ℕ) (g : Reader)
      → n ≢ 0
      → is_gzip s.header ≡ true
      → IsRead (returns (read_gzip gzip s n g)) (gzip.rest g) (gzip.fault g)
  unfolding rest_of
  gzip-IsRead s n g pos zipped = record {
    left = record s { gzip_reader = some (gzip.read g n).0 };
    got = (gzip.read g n).1;
    later = gzip.rest (gzip.read g n).0;
    error = (gzip.read g n).2;
    done = refl;
    still = rw zipped (ap (λ e. some (gzip.rest (gzip.read g n).0, e)) (gzip.read-fault g n));
    whole = gzip.read-rest g n;
    ends = elim (Option-cases (gzip.read g n).2) [
      | inl fine ↦
          inl (fine, gzip.read_some g n (λ empty. cc (gzip.read_end g n empty pos, fine)) pos)
      | inr (e, bad) ↦
          let (over, same) = gzip.read_error g n e bad in inr (bad ∙ ap some same, over)
    ];
  }

  plain-ends :
      (b : List ℕ) (n : ℕ)
      → n ≢ 0
      → (((take_from eof b n).2 ≡ none) × ((take_from eof b n).1 ≢ []))
        ⊎ (((take_from eof b n).2 ≡ some eof) × ((take_from eof b n).0 ≡ []))
  unfolding take_from
  plain-ends [] n pos = inr (refl, refl)
  plain-ends (x ∷ xs) n pos = inl (refl, take_from-some eof (x ∷ xs) n (λ h. ground arith) pos)

  plain-IsRead :
      (s : HttpReader gzip) (n : ℕ)
      → n ≢ 0
      → is_gzip s.header ≡ false
      → IsRead (returns (read_plain gzip s n)) s.reader eof
  unfolding rest_of
  plain-IsRead s n pos plain = record {
    left = record s { reader = (take_from eof s.reader n).0 };
    got = (take_from eof s.reader n).1;
    later = (take_from eof s.reader n).0;
    error = (take_from eof s.reader n).2;
    done = refl;
    still = rw plain refl;
    whole = take_from-rest eof s.reader n;
    ends = plain-ends s.reader n pos;
  }

  http_read-IsRead :
      (s : HttpReader gzip) (n : ℕ) (b : List ℕ) (e : ReadError)
      → n ≢ 0
      → rest_of s ≡ some (b, e)
      → IsRead (http_read gzip s n) b e
  unfolding http_read rest_of
  http_read-IsRead s n b e pos r = elim (Bool-cases (is_gzip s.header)) [
    | inr plain ↦
        let same = some-injective _ _ (rw plain at r) in
        rw (plain, ← ap (λ t. t.0) same, ← ap (λ t. t.1) same) (plain-IsRead s n pos plain)
    | inl zipped ↦ rw zipped (elim (Option-cases s.gzip_reader) [
      | inr (g, made) ↦
          let same = some-injective _ _ (rw (zipped, made) at r) in
          rw (made, ← ap (λ t. t.0) same, ← ap (λ t. t.1) same) (gzip-IsRead s n g pos zipped)
      | inl fresh ↦ elim (Option-cases (gzip.new_reader s.reader)) [
        | inl bad ↦ absurd (let e' = rw (zipped, fresh, bad) at r in ground arith)
        | inr (g, good) ↦
            let same = some-injective _ _ (rw (zipped, fresh, good) at r) in
            rw (fresh, good, ← ap (λ t. t.0) same, ← ap (λ t. t.1) same)
              (gzip-IsRead s n g pos zipped)
      ]
    ])
  ]

  shorter : (got later : List ℕ) → got ≢ [] → length later < length (got ++ later)
  shorter [] later some_got = absurd (some_got refl)
  shorter (x ∷ xs) later some_got = omega (arith, length-append xs later)

  -- More reads than there are bytes, each for some, give them all and then the error.
  pub read_to_end :
      (s : HttpReader gzip) (ns b : List ℕ) (e : ReadError)
      → rest_of s ≡ some (b, e)
      → All (λ n. n ≢ 0) ns
      → length b < length ns
      → (s' : HttpReader gzip) × (read_all gzip s ns ≡ returns (s', b, some e))
  unfolding read_all
  read_to_end s [] b e r pos more = absurd (omega arith)
  read_to_end s (n ∷ ns) b e r pos more =
      let first = http_read-IsRead s n b e pos.0 r in
      elim first.ends [
        | inr (bad, over) ↦ (
          first.left,
          rw (first.done, bad)
              (ap (λ l. returns (first.left, l, some e))
                (sym (append-nil first.got) ∙ ap (λ l. first.got ++ l) (sym over) ∙ first.whole)),
        )
        | inl (fine, some_got) ↦
            let (s', later) =
              read_to_end first.left ns first.later e first.still pos.1
                (omega (arith, shorter first.got first.later some_got, ap length first.whole)) in
            (s', rw (first.done, fine, later) (ap (λ l. returns (s', l, some e)) first.whole))
      ]
