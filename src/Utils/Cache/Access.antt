-- ===== src/Utils/Cache/Access.antt =====
-- utils/cache.go: theorems about `Get` and `HasKey` after each operation.
use zhangyu.Base.{
  set_twice, set-append_last, ne_of_eq_false, ℕ, String, ◌≡◌, refl, sym, ap, ◌∙◌, none, some, [],
  ◌∷◌, ◌++◌, length, get_elem?, arith, inl, inr, Bool-cases, ◌==◌, eq_iff, get_elem?-set_self,
  get_elem?-set_ne, get_elem?-append_last, get_elem?-append_left, get_elem?-lt, Option, true,
  if◌then◌else◌, ◌≢◌, ◌↔◌,
}
use mathlib.Core.Option.{some-injective}
use zhangyu.Base.Dict
use zhangyu.Base.Dict.{lookup-insert, lookup-delete}
use zhangyu.Base.Text.{CaseTable}
use zhangyu.Utils.Cache.{
  Item, Cache, write_item, find, get_key, get, set_item, set_expire, set_value, expire, delete,
  has_key, next_version,
}
use zhangyu.Utils.Cache.Valid.{IsValid, Found, find-cases}

module _ {ℓ} {V : Type ℓ} where
  -- The value that the map holds under a key as it is spelled.
  unfoldable pub entry : Cache V → String → Option V
  entry c k = elim (find c k) [ none ↦ none | some (p, it) ↦ some it.value ]

  get-entry : (u : CaseTable) (c : Cache V) (key : String) → get u c key ≡ entry c (get_key u key)
  unfolding get entry
  get-entry u c key = refl

  find-absent : (c : Cache V) (k : String) → Dict.lookup k c.cache_map ≡ none → entry c k ≡ none
  unfolding find entry
  find-absent c k e = rw (e, entry, find)

  entry-at :
      (c : Cache V) (k : String) (p : ℕ) (it : Item V)
      → Dict.lookup k c.cache_map ≡ some p
      → get_elem? c.items p ≡ some it
      → entry c k ≡ some it.value
  unfolding find entry
  entry-at c k p it e h = rw (e, entry, find, h)

  -- A new item behind a new key.
  abbrev put_item : Cache V → String → Item V → Cache V
  put_item c key it = record c {
    items = c.items ++ it ∷ [];
    cache_map = Dict.insert key (length c.items) c.cache_map;
  }

  entry-expire :
      (c : Cache V) (p : ℕ) (it : Item V) (duration : ℕ) (k : String)
      → entry (expire c p it duration) k
        ≡ entry (write_item c p (record it { version = next_version it.version })) k
  unfolding entry find expire
  entry-expire c p it duration k = refl

  module _ (u : CaseTable) (c : Cache V) (v : IsValid u c) where
    -- Two keys never share an item.
    Found-same_key :
        {k j : String} (f : Found u c k) (g : Found u c j) → f.pointer ≡ g.pointer → k ≡ j
    Found-same_key f g e =
        let at_g : get_elem? c.items g.pointer ≡ some f.item = rw (← e) f.stored in
        sym f.same_key
        ∙ ap (λ i. i.key) (some-injective f.item g.item (sym at_g ∙ g.stored))
        ∙ g.same_key

    entry-write :
        (k : String) (f : Found u c k) (it : Item V) (j : String)
        → entry (write_item c f.pointer it) j ≡ (if k == j then some it.value else entry c j)
    entry-write k f it j = elim (Bool-cases (k == j)) [
      | inl same ↦
          rw (same, sym ((eq_iff k j).0 same))
            (entry-at (write_item c f.pointer it) k f.pointer it f.mapped (
              get_elem?-set_self c.items f.pointer it
                (get_elem?-lt c.items f.pointer f.item f.stored)))
      | inr other ↦ rw other (elim (find-cases u c j v) [
        | inl (absent, _) ↦
            find-absent (write_item c f.pointer it) j absent ∙ sym (find-absent c j absent)
        | inr g ↦
            entry-at (write_item c f.pointer it) j g.pointer g.item g.mapped (
              get_elem?-set_ne c.items f.pointer g.pointer it
                (λ e. ne_of_eq_false k j other (Found-same_key f g e))
              ∙ g.stored)
            ∙ sym (entry-at c j g.pointer g.item g.mapped g.stored)
      ])
    ]

    entry-put :
        (k : String) (it : Item V) (j : String)
        → entry (put_item c k it) j ≡ (if k == j then some it.value else entry c j)
    entry-put k it j = elim (Bool-cases (k == j)) [
      | inl same ↦ rw same (
          entry-at (put_item c k it) j (length c.items) _
            (rw (lookup-insert k j (length c.items) c.cache_map, same) refl)
            (get_elem?-append_last c.items it))
      | inr other ↦ rw other (elim (find-cases u c j v) [
        | inl (absent, _) ↦
            find-absent (put_item c k it) j
              (rw (lookup-insert k j (length c.items) c.cache_map, other) absent)
            ∙ sym (find-absent c j absent)
        | inr g ↦
            entry-at (put_item c k it) j g.pointer g.item
              (rw (lookup-insert k j (length c.items) c.cache_map, other) g.mapped)
              (get_elem?-append_left c.items _ g.pointer
                  (get_elem?-lt c.items g.pointer g.item g.stored)
                ∙ g.stored)
            ∙ sym (entry-at c j g.pointer g.item g.mapped g.stored)
      ])
    ]

    entry-keep :
        (k : String) (f : Found u c k) (j : String)
        → (if k == j then some f.item.value else entry c j) ≡ entry c j
    entry-keep k f j = elim (Bool-cases (k == j)) [
      | inl same ↦
          rw (same, ← (eq_iff k j).0 same) (sym (entry-at c k f.pointer f.item f.mapped f.stored))
      | inr other ↦ rw other
    ]

    -- In a valid cache `Get` after `Set` finds the value under every spelling of the key, and any
    -- other key as before.
    pub get-set_item :
        (key : String) (value : V) (j : String)
        → get u (set_item u c key value) j
          ≡ (if get_key u key == get_key u j then some value else get u c j)
    unfolding set_item
    get-set_item key value j =
        rw (get-entry, get-entry u c j)
          (elim (find-cases u c (get_key u key) v) [
            | inl (_, absent) ↦ rw (absent, set_item) (entry-put (get_key u key) _ (get_key u j))
            | inr f ↦ rw (f.found, set_item) (entry-write (get_key u key) f _ (get_key u j))
          ])

    -- `SetExpire` changes no value, and says whether the key is there.
    pub get-set_expire :
        (key : String) (duration : ℕ) (j : String)
        → get u (set_expire u c key duration).0 j ≡ get u c j
    unfolding set_expire expire
    get-set_expire key duration j =
        rw (get-entry, get-entry u c j)
          (elim (find-cases u c (get_key u key) v) [
            | inl (_, absent) ↦ rw (absent, set_expire)
            | inr f ↦
                rw (f.found, set_expire)
                  (entry-expire c f.pointer f.item duration (get_key u j)
                    ∙ entry-write (get_key u key) f _ (get_key u j)
                    ∙ entry-keep (get_key u key) f (get_key u j))
          ])

    -- In a valid cache `Get` after `SetValue` finds the value under every spelling of the key, and
    -- any other key as before.
    pub get-set_value :
        (key : String) (value : V) (duration : ℕ) (j : String)
        → get u (set_value u c key value duration) j
          ≡ (if get_key u key == get_key u j then some value else get u c j)
    unfolding set_value
    get-set_value key value duration j =
        rw (get-entry, get-entry u c j)
          (elim (find-cases u c (get_key u key) v) [
            | inl (_, absent) ↦
                rw (absent, set_value)
                  (entry-expire _ (length c.items) _ duration (get_key u j)
                    ∙ ap
                        (λ xs.
                          entry
                            (record c {
                              items = xs;
                              cache_map = Dict.insert (get_key u key) (length c.items) c.cache_map;
                            })
                            (get_key u j))
                        (set-append_last c.items _ _)
                    ∙ entry-put (get_key u key) _ (get_key u j))
            | inr f ↦
                rw (f.found, set_value)
                  (entry-expire _ f.pointer _ duration (get_key u j)
                    ∙ ap (λ xs. entry (record c { items = xs }) (get_key u j))
                        (set_twice c.items f.pointer _ _)
                    ∙ entry-write (get_key u key) f _ (get_key u j))
          ])

  -- `Get` after `Delete` finds nothing under a key whose folded form is the deleted key as it was
  -- spelled, and any other key as before.
  pub get-delete :
      (u : CaseTable) (c : Cache V) (key j : String)
      → get u (delete c key) j ≡ (if key == get_key u j then none else get u c j)
  unfolding get delete find
  get-delete u c key j = ground (arith, lookup-delete key (get_key u j) c.cache_map)

  has_key-entry : (c : Cache V) (key : String) → (has_key c key ≡ true) ↔ (entry c key ≢ none)
  unfolding has_key entry
  has_key-entry c key = ground arith

  -- In a valid cache `HasKey` finds a key exactly if the key is spelled in its folded form and
  -- `Get` finds it.
  has_key_iff :
      (u : CaseTable) (c : Cache V) (key : String)
      → IsValid u c
      → (has_key c key ≡ true) ↔ ((get_key u key ≡ key) × (get u c key ≢ none))
  has_key_iff u c key v = (
    λ h. (
      spelled h,
      λ e. (has_key-entry c key).0 h (rw (spelled h) at (sym (get-entry u c key) ∙ e)),
    ),
    λ (spelled, there).
        (has_key-entry c key).1 (λ e. there (get-entry u c key ∙ ap (entry c) spelled ∙ e)),
  )
    where
      spelled : has_key c key ≡ true → get_key u key ≡ key
      spelled h = elim (find-cases u c key v) [
        | inl (absent, _) ↦ absurd ((has_key-entry c key).0 h (find-absent c key absent))
        | inr f ↦ f.folded
      ]
