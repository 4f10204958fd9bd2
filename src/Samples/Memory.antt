-- ===== src/Samples/Memory.antt =====
-- A server of key and value pairs in memory, on which leases never run out.

use mathlib.Core.List.{Mem, mem-cons_self, mem-cons_of_mem}
use mathlib.Core.Option.{some-injective}
use zhangyu.Base.{
  ℕ, String, ◌≡◌, refl, ap, ◌↔◌, Bool, true, false, Option, none, some, List, [], ◌∷◌, ◌==◌, ◌&&◌,
  if◌then◌else◌, All, arith, eq_iff, eq_refl, Bool-cases, inl, inr,
}
use zhangyu.Base.Dict
use zhangyu.Base.Dict.{lookup-insert, lookup-delete}
use zhangyu.Base.Strings.{has_prefix}
use zhangyu.Etcd.Server.{Server}

abbrev pub Entries : Type 0
Entries = List (String × String)

-- Whether a value is what a key holds.
abbrev pub holds : Option String → String → Bool
holds none v = false
holds (some w) v = w == v

abbrev pub keeps : Entries → String → String × String → Bool
keeps s p e = has_prefix p e.0 && holds (Dict.lookup e.0 s) e.1

-- The entries of a list that a state still has, under a prefix.
unfoldable pub select : Entries → String → Entries → Entries
select s p [] = []
select s p (e ∷ es) = let rest = select s p es in if keeps s p e then e ∷ rest else rest

holds-eq : (o : Option String) (v : String) → holds o v ≡ true → o ≡ some v
holds-eq none v h = absurd (ground arith)
holds-eq (some w) v h = ap some ((eq_iff w v).0 h)

keeps-found :
    (s : Entries) (p : String) (e : String × String)
    → keeps s p e ≡ true
    → (Dict.lookup e.0 s ≡ some e.1) × (has_prefix p e.0 ≡ true)
keeps-found s p e h = (holds-eq (Dict.lookup e.0 s) e.1 (ground arith), ground arith)

pub select_sound :
    (s : Entries) (p : String) (es : Entries)
    → All
        (λ (e : String × String). (Dict.lookup e.0 s ≡ some e.1) × (has_prefix p e.0 ≡ true))
        (select s p es)
unfolding select
select_sound s p [] = tt
select_sound s p (e ∷ es) = elim (Bool-cases (keeps s p e)) [
  | inl kept ↦ rw kept (keeps-found s p e kept, select_sound s p es)
  | inr dropped ↦ rw dropped (select_sound s p es)
]

pub keeps-entry :
    (s : Entries) (p k v : String)
    → Dict.lookup k s ≡ some v
    → has_prefix p k ≡ true
    → keeps s p (k, v) ≡ true
keeps-entry s p k v h q = rw (q, h) (eq_refl v)

select-mem_skip :
    (s : Entries) (p : String) (e : String × String) (es : Entries) (x : String × String)
    → Mem x (select s p es)
    → Mem x (select s p (e ∷ es))
unfolding select
select-mem_skip s p e es x m = elim (Bool-cases (keeps s p e)) [
  | inl kept ↦ rw kept (mem-cons_of_mem _ m)
  | inr dropped ↦ rw dropped m
]

select-mem_here :
    (s : Entries) (p : String) (e : String × String) (es : Entries)
    → keeps s p e ≡ true
    → Mem e (select s p (e ∷ es))
unfolding select
select-mem_here s p e es kept = rw kept mem-cons_self

-- What a state finds under a key is one of the entries that it selects.
pub select_complete :
    (s : Entries) (p k v : String) (es : Entries)
    → keeps s p (k, v) ≡ true
    → Dict.lookup k es ≡ some v
    → Mem (k, v) (select s p es)
unfolding Dict.lookup
select_complete s p k v [] h e = absurd (ground arith)
select_complete s p k v ((j, w) ∷ es) h e = elim (Bool-cases (j == k)) [
  | inl same ↦
      let value : w ≡ v = some-injective w v (rw same at e) in
      rw ((eq_iff j k).0 same, value) (select-mem_here s p (k, v) es h)
  | inr differ ↦
      select-mem_skip s p (j, w) es (k, v) (select_complete s p k v es h (rw differ at e))
]

abbrev pub revision : Option String → ℕ
revision none = 0
revision (some v) = 1

pub revision-eq-zero_iff : (o : Option String) → (revision o ≡ 0) ↔ (o ≡ none)
revision-eq-zero_iff none = (λ e. refl, λ e. refl)
revision-eq-zero_iff (some v) = (λ e. absurd (ground arith), λ e. absurd (ground arith))

abbrev pub memory : Server
memory = record {
  State = Entries;
  get = λ s k. Dict.lookup k s;
  range = λ s p. select s p s;
  put = λ s k v l. Dict.insert k v s;
  delete = λ s k. Dict.delete k s;
  create_revision = λ s k. revision (Dict.lookup k s);
  get-put = λ s k v l j. lookup-insert k j v s;
  get-delete = λ s k j. lookup-delete k j s;
  range_sound = λ s p. select_sound s p s;
  range_complete = λ s p k v e q. select_complete s p k v s (keeps-entry s p k v e q) e;
  create_revision-eq-zero_iff = λ s k. revision-eq-zero_iff (Dict.lookup k s);
}
