-- ===== src/Samples/Zipped.antt =====
-- A stand-in for gzip: a mark, and then the bytes as they are.

use zhangyu.Base.{
  ℕ, ◌≡◌, refl, sym, ap, Bool, true, false, Option, none, some, List, [], ◌∷◌, ◌++◌, concat,
  if◌then◌else◌, nat_eq,
}
use zhangyu.Utils.Http.Reads.{take_from-rest, take_from-some, take_from-error, take_from-end}
use zhangyu.Utils.Http.Streams.{Gzip, unexpected_eof, take_from}

unfoldable pub mark_write : Bool → List ℕ → Bool × List ℕ
mark_write false p = (true, 31 ∷ p)
mark_write true p = (true, p)

unfoldable pub mark_read : List ℕ → Option (List ℕ)
mark_read [] = none
mark_read (n ∷ ns) = if nat_eq n 31 then some ns else none

unfoldable pub mark_all : Bool → List (List ℕ) → List ℕ
mark_all marked [] = []
mark_all false (p ∷ ps) = 31 ∷ p ++ concat ps
mark_all true (p ∷ ps) = p ++ concat ps

marked : (ps : List (List ℕ)) → mark_all true ps ≡ concat ps
unfolding mark_all
marked [] = refl
marked (p ∷ ps) = refl

pub mark_none : (w : Bool) → mark_all w [] ≡ []
unfolding mark_all
mark_none false = refl
mark_none true = refl

pub mark_some :
    (w : Bool) (p : List ℕ) (ps : List (List ℕ))
    → mark_all w (p ∷ ps) ≡ (mark_write w p).1 ++ mark_all (mark_write w p).0 ps
unfolding mark_all mark_write
mark_some false p ps = ap (λ l. 31 ∷ p ++ l) (sym (marked ps))
mark_some true p ps = ap (λ l. p ++ l) (sym (marked ps))

pub mark_trip :
    (p : List ℕ) (ps : List (List ℕ))
    → (r : List ℕ) × (mark_read (mark_all false (p ∷ ps)) ≡ some r)
      × (r ≡ p ++ concat ps)
      × (unexpected_eof ≡ unexpected_eof)
unfolding mark_all mark_read
mark_trip p ps = (p ++ concat ps, refl, refl, refl)

abbrev pub marks : Gzip
marks = record {
  Writer = Bool;
  Reader = List ℕ;
  new_writer = false;
  write_flush = mark_write;
  new_reader = mark_read;
  read = λ r n. take_from unexpected_eof r n;
  rest = λ r. r;
  fault = λ r. unexpected_eof;
  read-rest = λ r n. take_from-rest unexpected_eof r n;
  read-fault = λ r n. refl;
  read_some = λ r n. take_from-some unexpected_eof r n;
  read_error = λ r n. take_from-error unexpected_eof r n;
  read_end = λ r n empty pos. take_from-end unexpected_eof r n empty;
  flushed = mark_all;
  flushed_none = mark_none;
  flushed_some = mark_some;
  read_flushed = mark_trip;
}
