-- ===== src/Tests/Cached.antt =====
-- Two writes, an invalidation and a read.
use guangyue_panel.Prelude.{◌≤◌, ◌≡◌, refl, some, List, [], ◌∷◌, length, lookup}
use guangyue_panel.Cache.{CacheEntry, get, set}
use guangyue_panel.Cache.Fresh.{get-latest}
use guangyue_panel.Cache.Calls.{Call, sets, invalidates, after, latest}

abbrev calls : List Call
calls =
    invalidates "users"
    ∷ sets 120 0 "nodes/1" (5 ∷ []) 1000
    ∷ sets 100 3 "users/7" (1 ∷ 2 ∷ []) 1000
    ∷ []

answer : (get 900 "nodes/1" (after calls)).0 ≡ some (5 ∷ [])
unfolding get after set lookup
answer = refl

get-latest_example :
    ((e : CacheEntry) × (latest calls "nodes/1" ≡ some e) × (e.value ≡ 5 ∷ []) × (900 ≤ e.expires))
    × (length (after calls) ≤ 16)
get-latest_example = get-latest calls 900 "nodes/1" (5 ∷ []) answer
