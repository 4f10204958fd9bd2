-- ===== src/Utils/Cache/Runs.antt =====
-- utils/cache.go: the runs of a cache: calls, ticks of the clock, fired timers and the deletes that
-- these start.
use zhangyu.Base.{
  length-set, ℕ, String, ◌≡◌, refl, ap, ◌∙◌, none, some, List, [], ◌∷◌, ◌++◌, length, set, arith,
  eq_refl, get_elem?-set_self, get_elem?-append_left, ◌+◌, ◌≤◌, length-append,
}
use zhangyu.Base.Text.{CaseTable}
use mathlib.Core.List.{Mem, mem-cons_self}
use zhangyu.Utils.Cache.{
  Item, Timer, Cache, new_cache, find, get_key, get, set_item, set_expire, set_value, expire,
  delete, fire, new_item,
}
use zhangyu.Base.Dict.{lookup-delete, lookup-insert}
use zhangyu.Base.Dict
use zhangyu.Utils.Cache.Valid.{
  IsValid, set_item-IsValid, set_expire-IsValid, set_value-IsValid, delete-IsValid, fire-IsValid,
}
use zhangyu.Utils.Cache.Access.{get-delete, get-set_item}
use zhangyu.Utils.Cache.Timers.{fire-current}

module _ {ℓ} {V : Type ℓ} where
  find-none : (c : Cache V) (k : String) → Dict.lookup k c.cache_map ≡ none → find c k ≡ none
  unfolding find
  find-none c k e = rw (e, find)

  set_item-absent :
      (u : CaseTable) (c : Cache V) (key : String) (value : V)
      → find c (get_key u key) ≡ none
      → set_item u c key value ≡ new_item c (get_key u key) value
  unfolding set_item
  set_item-absent u c key value absent = rw (absent, set_item)

  set_value-absent :
      (u : CaseTable) (c : Cache V) (key : String) (value : V) (duration : ℕ)
      → find c (get_key u key) ≡ none
      → set_value u c key value duration
        ≡ expire
            (new_item c (get_key u key) value)
            (length c.items)
            (record { version = 0; value = value; key = get_key u key })
            duration
  unfolding set_value
  set_value-absent u c key value duration absent = rw (absent, set_value)

module _ {ℓ} {V : Type ℓ} (u : CaseTable) where
  -- One move of a program that uses the cache, or of a goroutine of the cache.
  pub data Step : Cache V → Cache V → Type ℓ where
    sets : {c : Cache V} (key : String) (value : V) → Step c (set_item u c key value)
    sets_expire :
        {c : Cache V} (key : String) (duration : ℕ) → Step c (set_expire u c key duration).0
    sets_value :
        {c : Cache V} (key : String) (value : V) (duration : ℕ)
        → Step c (set_value u c key value duration)
    deletes_key : {c : Cache V} (key : String) → Step c (delete c key)
    waits : {c : Cache V} (n : ℕ) → Step c (record c { now = c.now + n })
    fires :
        {c : Cache V} (t : Timer) (rest : List Timer)
        → Mem t c.timers
        → t.due ≤ c.now
        → Step c (fire (record c { timers = rest }) t)
    runs_delete :
        {c : Cache V} (key : String) (rest : List String)
        → Mem key c.deletes
        → Step c (delete (record c { deletes = rest }) key)

  pub data Reach : Cache V → Type ℓ where
    start : Reach new_cache
    next : {c d : Cache V} → Reach c → Step c d → Reach d

  Step-IsValid : {c d : Cache V} → Step c d → IsValid u c → IsValid u d
  Step-IsValid (sets {c} key value) v = set_item-IsValid u c key value v
  Step-IsValid (sets_expire {c} key duration) v = set_expire-IsValid u c key duration v
  Step-IsValid (sets_value {c} key value duration) v = set_value-IsValid u c key value duration v
  Step-IsValid (deletes_key {c} key) v = delete-IsValid u c key v
  Step-IsValid (waits n) v = record { links = v.links }
  Step-IsValid (fires {c} t rest m due) v =
      fire-IsValid u (record c { timers = rest }) t (record { links = v.links })
  Step-IsValid (runs_delete {c} key rest m) v =
      delete-IsValid u (record c { deletes = rest }) key (record { links = v.links })

  -- In every run of a cache, whatever the calls and whenever its timers fire, each key of the map
  -- is folded and points to an item that carries the key.
  pub Reach-IsValid : {c : Cache V} → Reach c → IsValid u c
  unfolding Dict.lookup
  Reach-IsValid start = record { links = λ k p e. absurd (ground arith) }
  Reach-IsValid (next r s) = Step-IsValid s (Reach-IsValid r)

  module _ (c : Cache V) (key : String) (value later : V) (duration : ℕ) where
    -- An entry is set with an expiry, deleted, and set again with none.
    abbrev pub set_again : Cache V
    set_again = set_item u (delete (set_value u c key value duration) (get_key u key)) key later

    -- The timer of the first entry.
    abbrev pub first_timer : Timer
    first_timer = record { item = length c.items; version = 1; due = c.now + duration }

    abbrev first_item : Item V
    first_item = record { version = 0; value = value; key = get_key u key }

    -- The cache after the delete.
    abbrev emptied : Cache V
    emptied =
        delete (expire (new_item c (get_key u key) value) (length c.items) first_item duration)
          (get_key u key)

    emptied-absent : find emptied (get_key u key) ≡ none
    unfolding delete expire
    emptied-absent = find-none emptied (get_key u key) (
        lookup-delete (get_key u key) (get_key u key)
          (Dict.insert (get_key u key) (length c.items) c.cache_map)
        ∙ rw (eq_refl (get_key u key)))

    set_again-new_item :
        find c (get_key u key) ≡ none → set_again ≡ new_item emptied (get_key u key) later
    set_again-new_item absent =
        ap (λ d. set_item u (delete d (get_key u key)) key later)
          (set_value-absent u c key value duration absent)
        ∙ set_item-absent u emptied key later emptied-absent

    fire-first :
        (fire (new_item emptied (get_key u key) later) first_timer).deletes
        ≡ get_key u key ∷ c.deletes
    unfolding delete expire
    fire-first =
        ap (λ d. d.deletes)
          (fire-current (new_item emptied (get_key u key) later) first_timer
            (record first_item { version = 1 })
            (get_elem?-append_left (set (c.items ++ first_item ∷ []) (length c.items) _) _
                (length c.items)
                (omega (
                  arith,
                  length-set (c.items ++ first_item ∷ []) (length c.items)
                      (record first_item { version = 1 }),
                  length-append c.items (first_item ∷ []),
                ))
              ∙ get_elem?-set_self (c.items ++ first_item ∷ []) (length c.items) _
                  (omega (arith, length-append c.items (first_item ∷ []))))
            refl)

    first-running : find c (get_key u key) ≡ none → Mem first_timer set_again.timers
    unfolding delete expire
    first-running absent = rw (set_again-new_item absent) mem-cons_self

    -- In a valid cache without the key, let `SetValue` set it with an expiry, `Delete` delete it
    -- under its folded form, and `Set` set it again: `Get` finds the later value, and yet the timer
    -- that the first call started is still among those that run, and once it fires it starts a
    -- delete of the key, after which `Get` finds nothing.
    pub stale_timer_deletes :
        IsValid u c
        → find c (get_key u key) ≡ none
        → Mem first_timer set_again.timers
          × (get u set_again key ≡ some later)
          × ((fire set_again first_timer).deletes ≡ get_key u key ∷ c.deletes)
          × (get u (delete (fire set_again first_timer) (get_key u key)) key ≡ none)
    stale_timer_deletes v absent = (
      first-running absent,
      get-set_item u (delete (set_value u c key value duration) (get_key u key))
            (delete-IsValid u _ (get_key u key) (set_value-IsValid u c key value duration v)) key
            later key
          ∙ rw (eq_refl (get_key u key)),
      rw (set_again-new_item absent) fire-first,
      get-delete u (fire set_again first_timer) (get_key u key) key ∙ rw (eq_refl (get_key u key)),
    )
