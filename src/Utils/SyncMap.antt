-- ===== src/Utils/SyncMap.antt =====
-- utils/map.go: a locked map that is made when it is first used.
use zhangyu.Base.{String, Option, none, some, List, []}
use zhangyu.Base.Dict

pub record SyncMap {ℓ} (V : Type ℓ) : Type ℓ where
  dict : Option (List (String × V))

-- `NewSyncMap`.
abbrev pub new_sync_map {ℓ} : {V : Type ℓ} → SyncMap V
new_sync_map = record { dict = none }

module _ {ℓ} {V : Type ℓ} where
  -- `getMap`.
  unfoldable get_map : SyncMap V → List (String × V)
  get_map m = elim m.dict [ none ↦ [] | some d ↦ d ]

  -- `GetValue`, with `none` for the zero value; `PutValue`; `Delete`.
  unfoldable pub get_value : SyncMap V → String → Option V
  unfolding get_map
  get_value m key = Dict.lookup key (get_map m)

  unfoldable pub put_value : SyncMap V → String → V → SyncMap V
  unfolding get_map
  put_value m key value = record { dict = some (Dict.insert key value (get_map m)) }

  unfoldable pub delete : SyncMap V → String → SyncMap V
  unfolding get_map
  delete m key = record { dict = some (Dict.delete key (get_map m)) }
