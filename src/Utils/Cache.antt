-- ===== src/Utils/Cache.antt =====
-- utils/cache.go: a map from folded keys to items, each with a version that outdates the timers
-- started for it before. Items are pointers, which a timer keeps after its item has left the map:
-- `items` is the store, and a pointer an index into it.
pub mod Valid
pub mod Refines
pub mod Access
pub mod Timers
pub mod Runs
use zhangyu.Base.{
  ℕ, ◌+◌, ◌%◌, ◌^◌, String, Bool, true, false, Option, none, some, List, [], ◌∷◌, ◌++◌, length,
  get_elem?, set, nat_eq, if◌then◌else◌,
}
use zhangyu.Base.Dict
use zhangyu.Base.Text.{CaseTable, to_lower, trim_space}

-- `CacheItem`. The version is an `int64` that is only counted up and compared, so it is kept as its
-- bit pattern.
pub record Item {ℓ} (V : Type ℓ) : Type ℓ where
  pub version : ℕ
  pub value : V
  pub key : String

-- A goroutine started by `expire`: it waits until `due`, with the item and its version.
pub record Timer : Type 0 where
  pub item : ℕ
  pub version : ℕ
  pub due : ℕ

-- The calls of `expireHandler` and `deleteHandler`, if they are set.
pub data Event {ℓ} (V : Type ℓ) : Type ℓ where
  expired : String → V → Event V
  deleting : String → Event V

-- `Cache`, with the running timers, the deletes that fired timers have started, and what the
-- handlers have been told, the latest first.
pub record Cache {ℓ} (V : Type ℓ) : Type ℓ where
  pub items : List (Item V)
  pub cache_map : List (String × ℕ)
  pub now : ℕ
  pub timers : List Timer
  pub deletes : List String
  pub events : List (Event V)

-- `NewCache`.
abbrev pub new_cache {ℓ} : {V : Type ℓ} → Cache V
new_cache = record { items = []; cache_map = []; now = 0; timers = []; deletes = []; events = [] }

-- `version + 1` on an `int64`.
abbrev pub next_version : ℕ → ℕ
next_version n = (n + 1) % 2 ^ 64

-- `getKey`.
unfoldable pub get_key : CaseTable → String → String
get_key u key = trim_space (to_lower u key)

module _ {ℓ} {V : Type ℓ} where
  -- The assignment through a pointer.
  abbrev pub write_item : Cache V → ℕ → Item V → Cache V
  write_item c p it = record c { items = set c.items p it }

  -- `CacheItem.expire`: a new version, and a timer that carries it.
  unfoldable pub expire : Cache V → ℕ → Item V → ℕ → Cache V
  expire c p it duration = record c {
    items = set c.items p (record it { version = next_version it.version });
    timers =
        record { item = p; version = next_version it.version; due = c.now + duration } ∷ c.timers;
  }

  -- `newCacheItem`, stored in the map under its key.
  abbrev pub new_item : Cache V → String → V → Cache V
  new_item c key value = record c {
    items = c.items ++ record { version = 0; value = value; key = key } ∷ [];
    cache_map = Dict.insert key (length c.items) c.cache_map;
  }

  -- `s.cacheMap[key]`, and the item behind the pointer.
  unfoldable pub find : Cache V → String → Option (ℕ × Item V)
  find c key = elim (Dict.lookup key c.cache_map) [
    | none ↦ none
    | some p ↦ elim (get_elem? c.items p) [ none ↦ none | some it ↦ some (p, it) ]
  ]

  module _ (u : CaseTable) where
    -- `Get`; the zero value of a pointer type, `nil`, is `none`.
    unfoldable pub get : Cache V → String → Option V
    get c key = elim (find c (get_key u key)) [ none ↦ none | some (p, it) ↦ some it.value ]

    -- `Set`.
    unfoldable pub set_item : Cache V → String → V → Cache V
    set_item c key value = elim (find c (get_key u key)) [
      | none ↦ new_item c (get_key u key) value
      | some (p, it) ↦
          write_item c p (record it { value = value; version = next_version it.version })
    ]

    -- `SetExpire`.
    unfoldable pub set_expire : Cache V → String → ℕ → Cache V × Bool
    set_expire c key duration = elim (find c (get_key u key)) [
      | none ↦ (c, false)
      | some (p, it) ↦ (expire c p it duration, true)
    ]

    -- `SetValue`.
    unfoldable pub set_value : Cache V → String → V → ℕ → Cache V
    set_value c key value duration = elim (find c (get_key u key)) [
      | none ↦
          expire (new_item c (get_key u key) value) (length c.items)
            (record { version = 0; value = value; key = get_key u key }) duration
      | some (p, it) ↦
          expire (write_item c p (record it { value = value })) p (record it { value = value })
            duration
    ]

  -- `HasKey`: the key is not folded.
  unfoldable pub has_key : Cache V → String → Bool
  has_key c key = elim (find c key) [ none ↦ false | some _ ↦ true ]

  -- `Delete`: the key is not folded either.
  unfoldable pub delete : Cache V → String → Cache V
  delete c key = record c {
    cache_map = Dict.delete key c.cache_map;
    events = deleting key ∷ c.events;
  }

  -- What the goroutine of a timer does once its time has come: nothing if the item has a newer
  -- version, else it starts a delete of the item's key and calls the expire handler.
  unfoldable pub fire : Cache V → Timer → Cache V
  fire c t = elim (get_elem? c.items t.item) [
    | none ↦ c
    | some it ↦
        if nat_eq it.version t.version
        then record c { deletes = it.key ∷ c.deletes; events = expired it.key it.value ∷ c.events }
        else c
  ]
