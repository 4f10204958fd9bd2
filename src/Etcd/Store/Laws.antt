-- ===== src/Etcd/Store/Laws.antt =====
-- app/node/etcd/etcd.go: theorems about reads and writes of records, `lock` and `GetJwtSignKey`.
use zhangyu.Base.{
  if◌then◌else◌, ◌==◌, eq_iff, ne_of_eq_false, ◌⊎◌, ℕ, String, ◌≡◌, sym, ap, ◌∙◌, ◌≢◌, Bool, true,
  false, none, some, nat_eq, nat_eq→eq, eq_refl, eq_false, Bool-cases, inl, inr, arith,
  Option-cases, ◌⊎◌,
}
use mathlib.Core.Option.{some-injective}
use zhangyu.Utils.Json.{
  JsonText, Struct, get_json_string, get_json_value, get_json_value-get_json_string,
  get_json_value_empty,
}
use zhangyu.Etcd.Server.{Server, Lease, forever, seconds}
use zhangyu.Etcd.Keys.{jwt_sign_key}
use zhangyu.Etcd.Store.{get_record, lock, get_jwt_sign_key}

module _ (srv : Server) (codec : JsonText) where
  open srv use {State, get, put, create_revision, get-put, create_revision-eq-zero_iff}

  pub get-put_self : (s : State) (k v : String) (l : Lease) → get (put s k v l) k ≡ some v
  get-put_self s k v l = get-put s k v l k ∙ rw (eq_refl k)

  pub get-put_ne :
      (s : State) (k v : String) (l : Lease) (j : String) → k ≢ j → get (put s k v l) j ≡ get s j
  get-put_ne s k v l j ne = get-put s k v l j ∙ rw (eq_false k j ne)

  module _ {A : Type 0} ⦃struct : Struct A⦄ where
    get_record-text :
        (s : State) (key text : String)
        → get s key ≡ some text
        → get_record srv codec s key ≡ some (get_json_value codec struct.zero_value text).0
    unfolding get_record
    get_record-text s key text e = rw (e, get_record)

    -- A record that was put is read back, under its key.
    pub get_record-put :
        (s : State) (key : String) (a : A) (l : Lease)
        → get_record srv codec (put s key (get_json_string codec a) l) key ≡ some a
    get_record-put s key a l =
        get_record-text _ key (get_json_string codec a) (get-put_self s key _ l)
        ∙ ap (λ (r : A × Bool). some r.0) (get_json_value-get_json_string codec a)

    -- A record depends on its key's value alone.
    pub get_record-same :
        (s t : State) (key : String)
        → get s key ≡ get t key
        → get_record srv codec {A = A} s key ≡ get_record srv codec t key
    unfolding get_record
    get_record-same s t key e = rw (e, get_record)

    -- A read of any key after a record was put.
    pub get_record-put_if :
        (s : State) (key : String) (a : A) (l : Lease) (j : String)
        → get_record srv codec {A = A} (put s key (get_json_string codec a) l) j
          ≡ (if key == j then some a else get_record srv codec {A = A} s j)
    get_record-put_if s key a l j = elim (Bool-cases (key == j)) [
      | inl same ↦ rw (same, ← (eq_iff key j).0 same) (get_record-put s key a l)
      | inr differ ↦
          rw differ (get_record-same _ s j (get-put_ne s key _ l j (ne_of_eq_false key j differ)))
    ]

    -- Under a key that holds the empty value of a lock every record is read as present, with zero
    -- fields.
    get_record_locked :
        (s : State) (key : String)
        → get s key ≡ some ""
        → get_record srv codec {A = A} s key ≡ some struct.zero_value
    get_record_locked s key e =
        get_record-text s key "" e
        ∙ ap (λ (r : A × Bool). some r.0) (get_json_value_empty codec struct.zero_value)

  zero-ne-pos :
      {s : State} {key : String} → get s key ≡ none → nat_eq (create_revision s key) 0 ≢ false
  zero-ne-pos {s} {key} e pos = let zero = (create_revision-eq-zero_iff s key).1 e in ground arith

  -- `lock` either finds the key absent, succeeds and puts the empty value under it, or finds it
  -- present, fails and changes nothing.
  pub lock-cases :
      (s : State) (key : String) (ttl : ℕ)
      → ((get s key ≡ none) × (lock srv codec s key ttl ≡ (true, put s key "" (seconds ttl))))
        ⊎ ((get s key ≢ none) × (lock srv codec s key ttl ≡ (false, s)))
  unfolding lock
  lock-cases s key ttl = elim (Bool-cases (nat_eq (create_revision s key) 0)) [
    | inl zero ↦ inl ((create_revision-eq-zero_iff s key).0 (nat_eq→eq _ _ zero), rw (zero, lock))
    | inr pos ↦ inr (λ e. absurd (zero-ne-pos e pos), rw (pos, lock))
  ]

  pub jwt-cases :
      (s : State) (key : String)
      → ((get s jwt_sign_key ≡ none)
          × (get_jwt_sign_key srv codec s key ≡ (key, put s jwt_sign_key key forever)))
        ⊎ ((old : String) × (get s jwt_sign_key ≡ some old)
            × (get_jwt_sign_key srv codec s key ≡ (old, s)))
  unfolding get_jwt_sign_key
  jwt-cases s key = elim (Bool-cases (nat_eq (create_revision s jwt_sign_key) 0)) [
    | inl zero ↦ inl (
      (create_revision-eq-zero_iff s jwt_sign_key).0 (nat_eq→eq _ _ zero),
      rw (zero, get_jwt_sign_key),
    )
    | inr pos ↦ elim (Option-cases (get s jwt_sign_key)) [
      | inl absent ↦ absurd (zero-ne-pos absent pos)
      | inr (old, e) ↦ inr (old, e, rw (pos, get_jwt_sign_key, e))
    ]
  ]

  jwt_stored :
      (s : State) (key : String)
      → get (get_jwt_sign_key srv codec s key).1 jwt_sign_key
        ≡ some (get_jwt_sign_key srv codec s key).0
  jwt_stored s key = elim (jwt-cases s key) [
    | inl (_, e) ↦ rw e (get-put_self s jwt_sign_key key forever)
    | inr (old, there, e) ↦ rw e there
  ]

  jwt_known :
      (t : State) (later key : String)
      → get t jwt_sign_key ≡ some key
      → get_jwt_sign_key srv codec t later ≡ (key, t)
  jwt_known t later key e = elim (jwt-cases t later) [
    | inl (absent, _) ↦ absurd (cc (absent, e))
    | inr (old, there, r) ↦ r ∙ ap (λ k. (k, t)) (some-injective old key (sym there ∙ e))
  ]

  -- The call of `GetJwtSignKey` that comes first decides the signing key: as long as its value
  -- stays in the store, every later call returns the same key, whatever key it drew, and writes
  -- nothing.
  pub get_jwt_sign_key-agrees :
      (s t : State) (first later : String)
      → get t jwt_sign_key ≡ get (get_jwt_sign_key srv codec s first).1 jwt_sign_key
      → get_jwt_sign_key srv codec t later ≡ ((get_jwt_sign_key srv codec s first).0, t)
  get_jwt_sign_key-agrees s t first later same = jwt_known t later _ (same ∙ jwt_stored s first)
