-- ===== src/Utils/Cache/Timers.antt =====
-- utils/cache.go: theorems about `expire` and the timers that it starts.
use zhangyu.Base.{
  length-set, ℕ, String, ◌≡◌, refl, ap, ◌∙◌, none, some, ◌∷◌, length, get_elem?, arith, ◌==◌,
  get_elem?-set_self, get_elem?-lt, nat_eq_refl, nat_eq_ne, if◌then◌else◌, ◌^◌, ◌+◌, ◌<◌, ◌≢◌,
}
use zhangyu.Base.Text.{CaseTable}
use zhangyu.Utils.Cache.{
  write_item, Item, Timer, expired, Cache, next_version, find, get_key, get, set_item, set_expire,
  set_value, expire, delete, fire,
}
use zhangyu.Utils.Cache.Valid.{IsValid, Found}
use zhangyu.Utils.Cache.Access.{get-delete, get-set_expire}

next_version-ne : (n : ℕ) → n < 2 ^ 64 → next_version n ≢ n
next_version-ne n h = omega arith

module _ {ℓ} {V : Type ℓ} where
  -- A timer whose item has another version does nothing.
  fire-outdated :
      (c : Cache V) (t : Timer) (it : Item V)
      → get_elem? c.items t.item ≡ some it
      → it.version ≢ t.version
      → fire c t ≡ c
  unfolding fire
  fire-outdated c t it e ne = rw (e, fire, nat_eq_ne it.version t.version ne)

  pub fire-current :
      (c : Cache V) (t : Timer) (it : Item V)
      → get_elem? c.items t.item ≡ some it
      → it.version ≡ t.version
      → fire c t
        ≡ record c { deletes = it.key ∷ c.deletes; events = expired it.key it.value ∷ c.events }
  unfolding fire
  fire-current c t it e same = rw (e, fire, same, nat_eq_refl t.version)

  get-fire : (u : CaseTable) (c : Cache V) (t : Timer) (j : String) → get u (fire c t) j ≡ get u c j
  unfolding fire get find
  get-fire u c t j = ground arith

  fire-write_item :
      (c : Cache V) (p : ℕ) (it : Item V) (t : Timer)
      → p < length c.items
      → t.item ≡ p
      → it.version ≢ t.version
      → fire (write_item c p it) t ≡ write_item c p it
  fire-write_item c p it t inside at_item ne =
      fire-outdated (write_item c p it) t it (rw at_item (get_elem?-set_self c.items p it inside))
        ne

  fire-expire :
      (c : Cache V) (p : ℕ) (it : Item V) (duration : ℕ) (t : Timer)
      → p < length c.items
      → t.item ≡ p
      → next_version it.version ≢ t.version
      → fire (expire c p it duration) t ≡ expire c p it duration
  unfolding expire
  fire-expire c p it duration t inside at_item ne =
      fire-outdated (expire c p it duration) t (record it { version = next_version it.version })
        (rw at_item (get_elem?-set_self c.items p _ inside)) ne

  module _ (u : CaseTable) (c : Cache V) (key : String) (f : Found u c (get_key u key)) where
    inside : f.pointer < length c.items
    inside = get_elem?-lt c.items f.pointer f.item f.stored

    -- `Set`, `SetExpire` and `SetValue` of a key that is there each make a timer of its item's
    -- version, a number below 2 ^ 64, do nothing once it fires.
    refresh-outdates :
        (t : Timer) (value : V) (duration : ℕ)
        → t.item ≡ f.pointer
        → t.version ≡ f.item.version
        → t.version < 2 ^ 64
        → (fire (set_item u c key value) t ≡ set_item u c key value)
          × (fire (set_expire u c key duration).0 t ≡ (set_expire u c key duration).0)
          × (fire (set_value u c key value duration) t ≡ set_value u c key value duration)
    unfolding set_item set_expire set_value
    refresh-outdates t value duration at_item same small = (
      rw (f.found, set_item) (fire-write_item c f.pointer _ t inside at_item newer),
      rw (f.found, set_expire) (fire-expire c f.pointer f.item duration t inside at_item newer),
      rw (f.found, set_value)
          (fire-expire (write_item c f.pointer (record f.item { value = value })) f.pointer
            (record f.item { value = value }) duration t
            (omega (arith, inside, length-set c.items f.pointer (record f.item { value = value })))
            at_item newer),
    )
      where
        newer : next_version f.item.version ≢ t.version
        newer = omega arith

    -- The timer that `SetExpire` starts.
    abbrev armed : ℕ → Timer
    armed duration = record {
      item = f.pointer;
      version = next_version f.item.version;
      due = c.now + duration;
    }

    set_expire-expire :
        (duration : ℕ) → (set_expire u c key duration).0 ≡ expire c f.pointer f.item duration
    unfolding set_expire
    set_expire-expire duration = rw (f.found, set_expire)

    fire-armed :
        (duration : ℕ)
        → fire (expire c f.pointer f.item duration) (armed duration)
          ≡ record (expire c f.pointer f.item duration) {
            deletes = f.item.key ∷ c.deletes;
            events = expired f.item.key f.item.value ∷ c.events;
          }
    unfolding expire
    fire-armed duration =
        fire-current (expire c f.pointer f.item duration) (armed duration)
          (record f.item { version = next_version f.item.version })
          (get_elem?-set_self c.items f.pointer _ inside) refl

    -- For an entry of a valid cache `SetExpire` starts one timer. If that fires with the cache as
    -- it was left, it reports the key with its value, and the delete that it starts takes this key,
    -- and no other, out of the map.
    set_expire-fires :
        (duration : ℕ) (j : String)
        → IsValid u c
        → ((set_expire u c key duration).0.timers ≡ armed duration ∷ c.timers)
          × ((fire (set_expire u c key duration).0 (armed duration)).deletes
              ≡ get_key u key ∷ c.deletes)
          × ((fire (set_expire u c key duration).0 (armed duration)).events
              ≡ expired (get_key u key) f.item.value ∷ c.events)
          × (get u
                (delete (fire (set_expire u c key duration).0 (armed duration)) (get_key u key))
                j
              ≡ (if get_key u key == get_key u j then none else get u c j))
    unfolding expire
    set_expire-fires duration j v = (
      ap (λ d. d.timers) (set_expire-expire duration),
      rw (set_expire-expire duration, fire-armed duration, f.same_key),
      rw (set_expire-expire duration, fire-armed duration, f.same_key),
      get-delete u (fire (set_expire u c key duration).0 (armed duration)) (get_key u key) j
          ∙ ap (λ o. if get_key u key == get_key u j then none else o)
              (get-fire u (set_expire u c key duration).0 (armed duration) j
                ∙ get-set_expire u c v key duration j),
    )
