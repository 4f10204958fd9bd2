-- ===== src/Utils/Cache/Refines.antt =====
-- utils/cache.go: a run of calls of a cache, beside the same calls on a function of folded keys.
use zhangyu.Base.{ℕ, String, ◌≡◌, ap, ◌∙◌, Option, none, some, List, [], ◌∷◌, ◌==◌, if◌then◌else◌}
use zhangyu.Base.Text.{CaseTable}
use zhangyu.Utils.Cache.{Cache, get_key, get, set_item, set_expire, set_value, delete}
use zhangyu.Utils.Cache.Valid.{
  IsValid, set_item-IsValid, set_expire-IsValid, set_value-IsValid, delete-IsValid,
}
use zhangyu.Utils.Cache.Access.{get-set_item, get-set_expire, get-set_value, get-delete}

-- The calls that change a cache, with a duration where it gets a timer.
pub data Call {ℓ} (V : Type ℓ) : Type ℓ where
  sets : String → V → Call V
  sets_value : String → V → ℕ → Call V
  sets_expire : String → ℕ → Call V
  deletes : String → Call V

module _ {ℓ} {V : Type ℓ} (u : CaseTable) where
  -- One call, and a list of calls in order.
  abbrev pub call : Cache V → Call V → Cache V
  call c (sets key value) = set_item u c key value
  call c (sets_value key value duration) = set_value u c key value duration
  call c (sets_expire key duration) = (set_expire u c key duration).0
  call c (deletes key) = delete c key

  abbrev pub run : Cache V → List (Call V) → Cache V
  run c [] = c
  run c (x ∷ xs) = run (call c x) xs

  -- The same on a function: an entry is its folded key and its value, and time plays no part. A deleted
  -- key counts as it is spelled.
  abbrev set_entry : (String → Option V) → String → Option V → String → Option V
  set_entry m k value j = if k == j then value else m j

  abbrev replay_call : (String → Option V) → Call V → String → Option V
  replay_call m (sets key value) = set_entry m (get_key u key) (some value)
  replay_call m (sets_value key value duration) = set_entry m (get_key u key) (some value)
  replay_call m (sets_expire key duration) = m
  replay_call m (deletes key) = set_entry m key none

  abbrev pub replay : (String → Option V) → List (Call V) → String → Option V
  replay m [] = m
  replay m (x ∷ xs) = replay (replay_call m x) xs

  -- A cache shows a function: it finds what the function has under the folded key.
  pub record Shows (c : Cache V) (m : String → Option V) : Type ℓ where
    pub valid : IsValid u c
    agrees : (j : String) → get u c j ≡ m (get_key u j)

  Shows-set :
      (c d : Cache V) (m : String → Option V) (k : String) (value : Option V)
      → Shows c m
      → IsValid u d
      → ((j : String) → get u d j ≡ (if k == get_key u j then value else get u c j))
      → Shows d (set_entry m k value)
  Shows-set c d m k value sh v get_lem = record {
    valid = v;
    agrees =
        λ j. get_lem j ∙ ap (λ (o : Option V). if k == get_key u j then value else o) (sh.agrees j);
  }

  call-Shows :
      (c : Cache V) (m : String → Option V) (x : Call V)
      → Shows c m
      → Shows (call c x) (replay_call m x)
  call-Shows c m (sets key value) sh =
      Shows-set c _ m _ _ sh (set_item-IsValid u c key value sh.valid)
        (get-set_item u c sh.valid key value)
  call-Shows c m (sets_value key value duration) sh =
      Shows-set c _ m _ _ sh (set_value-IsValid u c key value duration sh.valid)
        (get-set_value u c sh.valid key value duration)
  call-Shows c m (sets_expire key duration) sh = record {
    valid = set_expire-IsValid u c key duration sh.valid;
    agrees = λ j. get-set_expire u c sh.valid key duration j ∙ sh.agrees j;
  }
  call-Shows c m (deletes key) sh =
      Shows-set c _ m _ _ sh (delete-IsValid u c key sh.valid) (get-delete u c key)

  run-Shows :
      (c : Cache V) (m : String → Option V) (xs : List (Call V))
      → Shows c m
      → Shows (run c xs) (replay m xs)
  run-Shows c m [] sh = sh
  run-Shows c m (x ∷ xs) sh = run-Shows (call c x) (replay_call m x) xs (call-Shows c m x sh)

  -- Any calls of `Set`, `SetValue`, `SetExpire` and `Delete` on a valid cache that finds what a
  -- function has under folded keys lead to a valid cache that finds what the same calls on the
  -- function lead to, where a deleted key counts as it is spelled.
  pub run_refines :
      (c : Cache V) (m : String → Option V) (xs : List (Call V))
      → IsValid u c
      → ((j : String) → get u c j ≡ m (get_key u j))
      → IsValid u (run c xs) × ((j : String) → get u (run c xs) j ≡ replay m xs (get_key u j))
  run_refines c m xs v agrees =
      let sh = run-Shows c m xs (record { valid = v; agrees = agrees }) in (sh.valid, sh.agrees)
