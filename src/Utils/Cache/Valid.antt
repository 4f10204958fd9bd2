-- ===== src/Utils/Cache/Valid.antt =====
-- utils/cache.go: the well-formedness of a cache, and lemmas that operations keep it.
use zhangyu.Base.{
  ℕ, String, ◌≡◌, ◌⊎◌, refl, sym, ap, ◌∙◌, none, some, List, [], ◌∷◌, ◌++◌, length, get_elem?, set,
  arith, inl, inr, Bool-cases, Option-cases, ◌==◌, eq_iff, get_elem?-set_self, get_elem?-set_ne,
  get_elem?-append_last, get_elem?-append_left, get_elem?-lt,
}
use mathlib.Core.Option.{some-injective}
use native.Mathlib.Decide.{ℕ_discrete}
use zhangyu.Base.Dict
use zhangyu.Base.Dict.{lookup-insert, lookup-delete}
use zhangyu.Base.Text.{CaseTable, trim_space-to_lower_idem}
use zhangyu.Utils.Cache.{
  Item, Cache, Timer, write_item, new_item, find, get_key, set_item, set_expire, set_value, expire,
  delete, fire,
}

get_key_idem : (u : CaseTable) (key : String) → get_key u (get_key u key) ≡ get_key u key
unfolding get_key
get_key_idem u key = trim_space-to_lower_idem u key

module _ {ℓ} {V : Type ℓ} (u : CaseTable) where
  -- What a key of the map points to: an item that carries this very key, which is folded.
  pub record Links (items : List (Item V)) (k : String) (p : ℕ) : Type ℓ where
    pub item : Item V
    pub stored : get_elem? items p ≡ some item
    pub same_key : item.key ≡ k
    pub folded : get_key u k ≡ k

  -- Every key of the map points to its own item.
  pub record IsValid (c : Cache V) : Type ℓ where
    pub links : (k : String) (p : ℕ) → Dict.lookup k c.cache_map ≡ some p → Links c.items k p

  Links-write :
      (items : List (Item V)) (k : String) (p q : ℕ) (old it : Item V)
      → get_elem? items q ≡ some old
      → it.key ≡ old.key
      → Links items k p
      → Links (set items q it) k p
  Links-write items k p q old it at_q same l = elim (ℕ_discrete q p) [
    | yes e ↦ record {
      item = it;
      stored = rw (← e) (get_elem?-set_self items q it (get_elem?-lt items q old at_q));
      same_key =
          let at_p : get_elem? items p ≡ some old = rw (← e) at_q in
          same ∙ ap (λ i. i.key) (some-injective old l.item (sym at_p ∙ l.stored)) ∙ l.same_key;
      folded = l.folded;
    }
    | no ne ↦ record {
      item = l.item;
      stored = get_elem?-set_ne items q p it ne ∙ l.stored;
      same_key = l.same_key;
      folded = l.folded;
    }
  ]

  write_item-IsValid :
      (c : Cache V) (p : ℕ) (old it : Item V)
      → get_elem? c.items p ≡ some old
      → it.key ≡ old.key
      → IsValid c
      → IsValid (write_item c p it)
  write_item-IsValid c p old it at_p same v = record {
    links = λ k q e. Links-write c.items k q p old it at_p same (v.links k q e);
  }

  new_item-IsValid :
      (c : Cache V) (key : String) (value : V)
      → get_key u key ≡ key
      → IsValid c
      → IsValid (new_item c key value)
  new_item-IsValid c key value folded v = record { links = linked }
    where
      fresh : Item V
      fresh = record { version = 0; value = value; key = key }

      linked :
          (k : String) (p : ℕ)
          → Dict.lookup k (Dict.insert key (length c.items) c.cache_map) ≡ some p
          → Links (c.items ++ fresh ∷ []) k p
      linked k p e = elim (Bool-cases (key == k)) [
        | inl same ↦
            let here : length c.items ≡ p =
              some-injective _ _
                (rw (lookup-insert key k (length c.items) c.cache_map, same) at e) in
            let key-k : key ≡ k = (eq_iff key k).0 same in
            record {
              item = fresh;
              stored = rw (← here) (get_elem?-append_last c.items fresh);
              same_key = key-k;
              folded = rw (← key-k) folded;
            }
        | inr other ↦
            let l =
              v.links k p (rw (lookup-insert key k (length c.items) c.cache_map, other) at e) in
            record {
              item = l.item;
              stored =
                  get_elem?-append_left c.items (fresh ∷ []) p
                    (get_elem?-lt c.items p l.item l.stored)
                  ∙ l.stored;
              same_key = l.same_key;
              folded = l.folded;
            }
      ]

  -- What `find` returns, with what the invariant says of it.
  pub record Found (c : Cache V) (k : String) : Type ℓ where
    pub pointer : ℕ
    pub item : Item V
    pub mapped : Dict.lookup k c.cache_map ≡ some pointer
    pub stored : get_elem? c.items pointer ≡ some item
    pub same_key : item.key ≡ k
    pub folded : get_key u k ≡ k
    pub found : find c k ≡ some (pointer, item)

  pub find-cases :
      (c : Cache V) (k : String)
      → IsValid c
      → ((Dict.lookup k c.cache_map ≡ none) × (find c k ≡ none)) ⊎ Found c k
  unfolding find
  find-cases c k v = elim (Option-cases (Dict.lookup k c.cache_map)) [
    | inl e ↦ inl (e, rw (e, find))
    | inr (p, e) ↦
        let l = v.links k p e in
        inr (record {
          pointer = p;
          item = l.item;
          mapped = e;
          stored = l.stored;
          same_key = l.same_key;
          folded = l.folded;
          found = rw (e, find, l.stored);
        })
  ]

  expire-IsValid :
      (c : Cache V) (p : ℕ) (it : Item V) (duration : ℕ)
      → get_elem? c.items p ≡ some it
      → IsValid c
      → IsValid (expire c p it duration)
  unfolding expire
  expire-IsValid c p it duration at_p v = record {
    links = λ k q e. Links-write c.items k q p it _ at_p refl (v.links k q e);
  }

  -- `Set` keeps the invariant.
  pub set_item-IsValid :
      (c : Cache V) (key : String) (value : V) → IsValid c → IsValid (set_item u c key value)
  unfolding set_item
  set_item-IsValid c key value v = elim (find-cases c (get_key u key) v) [
    | inl (_, absent) ↦ rw (absent, set_item) (new_item-IsValid c _ value (get_key_idem u key) v)
    | inr f ↦ rw (f.found, set_item) (write_item-IsValid c f.pointer f.item _ f.stored refl v)
  ]

  pub set_expire-IsValid :
      (c : Cache V) (key : String) (duration : ℕ)
      → IsValid c
      → IsValid (set_expire u c key duration).0
  unfolding set_expire
  set_expire-IsValid c key duration v = elim (find-cases c (get_key u key) v) [
    | inl (_, absent) ↦ rw (absent, set_expire) v
    | inr f ↦ rw (f.found, set_expire) (expire-IsValid c f.pointer f.item duration f.stored v)
  ]

  pub set_value-IsValid :
      (c : Cache V) (key : String) (value : V) (duration : ℕ)
      → IsValid c
      → IsValid (set_value u c key value duration)
  unfolding set_value
  set_value-IsValid c key value duration v = elim (find-cases c (get_key u key) v) [
    | inl (_, absent) ↦
        rw (absent, set_value)
          (expire-IsValid _ (length c.items) _ duration (get_elem?-append_last c.items _)
            (new_item-IsValid c _ value (get_key_idem u key) v))
    | inr f ↦
        rw (f.found, set_value)
          (expire-IsValid _ f.pointer _ duration
            (get_elem?-set_self c.items f.pointer _
              (get_elem?-lt c.items f.pointer f.item f.stored))
            (write_item-IsValid c f.pointer f.item _ f.stored refl v))
  ]

  pub delete-IsValid : (c : Cache V) (key : String) → IsValid c → IsValid (delete c key)
  unfolding delete
  delete-IsValid c key v = record { links = λ k p e. v.links k p (kept k p e) }
    where
      kept :
          (k : String) (p : ℕ)
          → Dict.lookup k (Dict.delete key c.cache_map) ≡ some p
          → Dict.lookup k c.cache_map ≡ some p
      kept k p e = ground (arith, lookup-delete key k c.cache_map)

  -- A timer changes neither the map nor an item.
  fire-same :
      (c : Cache V) (t : Timer)
      → ((fire c t).items ≡ c.items) × ((fire c t).cache_map ≡ c.cache_map)
  unfolding fire
  fire-same c t = ground arith

  pub fire-IsValid : (c : Cache V) (t : Timer) → IsValid c → IsValid (fire c t)
  fire-IsValid c t v = record {
    links = λ k p e. rw ((fire-same c t).0) (v.links k p (rw ((fire-same c t).1) at e));
  }
