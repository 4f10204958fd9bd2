-- ===== src/Samples/CacheTests.antt =====
-- utils/cache.go, utils/io.go, utils/json.go: runs at concrete inputs.
use zhangyu.Base.{ℕ, ◌≡◌, refl, none, some, ◌∷◌}
use zhangyu.Base.Dict
use zhangyu.Base.Text.{to_lower, trim_space}
use zhangyu.Utils.Cache.{Cache, new_cache, get, get_key, set_item, set_expire, delete, fire, find}
use zhangyu.Utils.Cache.Valid.{IsValid, Found}
use zhangyu.Utils.Cache.Access.{get-set_expire}
use zhangyu.Utils.Cache.Runs.{
  Reach, start, next, sets, Reach-IsValid, set_again, first_timer, stale_timer_deletes,
}
use mathlib.Core.List.{Mem}
use zhangyu.Rpc.Records.{Tunnel}
use zhangyu.Rpc.Records.Clients.{tunnel_struct}
use zhangyu.Samples.Ascii.{ascii, ascii_lower}

abbrev filled : Cache ℕ
filled = set_item ascii new_cache " Key" 5

filled-Reach : Reach ascii filled
filled-Reach = next start (sets " Key" 5)

filled-IsValid : IsValid ascii filled
filled-IsValid = Reach-IsValid ascii filled-Reach

Reach-IsValid_example : IsValid ascii filled
Reach-IsValid_example = Reach-IsValid ascii (next start (sets " Key" 5))

get-set_expire_example :
    get ascii (set_expire ascii filled "keY" 20).0 "KEY" ≡ get ascii filled "KEY"
get-set_expire_example = get-set_expire ascii filled filled-IsValid "keY" 20 "KEY"

unfoldable filled-Found : Found ascii filled (get_key ascii "KEY")
unfolding get_key set_item find Dict.lookup Dict.insert to_lower trim_space ascii_lower
filled-Found = record {
  pointer = 0;
  item = record { version = 0; value = 5; key = "key" };
  mapped = refl;
  stored = refl;
  same_key = refl;
  folded = refl;
  found = refl;
}

other_absent : find filled (get_key ascii "other") ≡ none
unfolding get_key set_item find Dict.lookup Dict.insert to_lower trim_space ascii_lower
other_absent = refl

stale_timer_deletes_example :
    Mem (first_timer ascii filled "other" 1 2 30) (set_again ascii filled "other" 1 2 30).timers
    × (get ascii (set_again ascii filled "other" 1 2 30) "other" ≡ some 2)
    × ((fire
          (set_again ascii filled "other" 1 2 30)
          (first_timer ascii filled "other" 1 2 30)).deletes
        ≡ get_key ascii "other" ∷ filled.deletes)
    × (get ascii
          (delete
            (fire (set_again ascii filled "other" 1 2 30) (first_timer ascii filled "other" 1 2 30))
            (get_key ascii "other"))
          "other"
        ≡ none)
stale_timer_deletes_example =
    stale_timer_deletes ascii filled "other" 1 2 30 filled-IsValid other_absent

abbrev home : Tunnel
home = record { tunnel_id = "10000001"; terminal_id = "a"; auth_code = "s \"q\"" }

-- A key is found under another spelling.
get_filled : get ascii filled "KEY " ≡ some 5
unfolding get get_key set_item find Dict.lookup Dict.insert to_lower trim_space ascii_lower
get_filled = refl

-- The entry that `Delete` was asked to delete is still there.
delete_unfolded : get ascii (delete filled "Key") "Key" ≡ some 5
unfolding get get_key set_item delete Dict.delete find Dict.lookup Dict.insert to_lower trim_space
    ascii_lower
delete_unfolded = refl
