-- ===== src/Samples/UtilsTests.antt =====
-- utils: closers, random texts and runs of a cache at concrete inputs.
use zhangyu.Base.{ℕ, String, ◌≡◌, refl, Option, none, List, [], ◌∷◌}
use zhangyu.Base.Dict
use zhangyu.Utils.Cache
use zhangyu.Utils.Cache.{get_key}
use zhangyu.Utils.Cache.Valid.{IsValid}
use zhangyu.Utils.Cache.Runs.{Reach-IsValid, start}
use zhangyu.Utils.Cache.Refines.{Call, sets, sets_value, deletes, run, replay, run_refines}
use zhangyu.Samples.Ascii.{ascii}

abbrev some_calls : List (Call ℕ)
some_calls = sets " A" 1 ∷ sets_value "b" 2 10 ∷ deletes "A" ∷ sets "B " 3 ∷ []

abbrev nothing : String → Option ℕ
nothing j = none

run_refines_example :
    IsValid ascii (run ascii Cache.new_cache some_calls)
    × ((j : String)
        → Cache.get ascii (run ascii Cache.new_cache some_calls) j
          ≡ replay ascii nothing some_calls (get_key ascii j))
unfolding Cache.get Cache.find Dict.lookup
run_refines_example =
    run_refines ascii Cache.new_cache nothing some_calls (Reach-IsValid ascii start) (λ j. refl)
