-- ===== src/Cache.antt =====
-- The local map of cache/cache.go: `Get`, `Set` and `Invalidate` of a cache without Redis. Times are
-- in nanoseconds, and the clock stands still during a call.
pub mod Calls
pub mod Fresh
use Prim.Native.Char.{Char, code}
use Prim.Native.String.{String}
use guangyue_panel.Prelude.{
  ℕ, ◌+◌, ◌%◌, Bool, true, false, not, ◌&&◌, ◌||◌, Option, none, some, List, Map, [], ◌∷◌,
  if◌then◌else◌, ltb, leb, ◌==◌, nat_eq, string_eq, lookup, keep, length, get_elem?, Result, ok,
  err, ◌>>◌, guard, bad_category,
}
use guangyue_panel.Prelude.Text.{has_prefix}

pub record CacheEntry : Type 0 where
  pub value : List ℕ
  pub expires : ℕ

abbrev pub Items : Type 0
Items = Map String CacheEntry

abbrev pub expired : ℕ → CacheEntry → Bool
expired now e = ltb e.expires now

-- delete(c.items, key), and the write of a key.
unfoldable pub forget : String → Items → Items
forget key items = keep (λ row. not (row.0 == key)) items

unfoldable pub write : String → CacheEntry → Items → Items
unfolding forget
write key e items = (key, e) ∷ forget key items

-- The value of a row, if it is there and has not expired, and the map after the call.
abbrev pub read : ℕ → String → Items → Option CacheEntry → Option (List ℕ) × Items
read now key items none = (none, forget key items)
read now key items (some e) =
    if expired now e then (none, forget key items) else (some e.value, items)

unfoldable pub get : ℕ → String → Items → Option (List ℕ) × Items
unfolding forget
get now key items = read now key items (lookup key items)

-- A full map first loses what has expired, and then, if it is still full, an entry that the range
-- meets first, which may be any: `chance` chooses it.
unfoldable pub drop_expired : ℕ → Items → Items
drop_expired now items =
    if leb 16 (length items) then keep (λ row. not (expired now row.1)) items else items

abbrev pub drop_key : Option (String × CacheEntry) → Items → Items
drop_key none items = items
drop_key (some (key, e)) items = forget key items

unfoldable pub drop_one : ℕ → Items → Items
unfolding forget
drop_one chance items =
    if leb 16 (length items)
    then drop_key (get_elem? items (chance % length items)) items
    else items

abbrev pub is_accepted : List ℕ → ℕ → Bool
is_accepted value ttl = leb (length value) 1048576 && ltb 0 ttl && leb ttl 60000000000

unfoldable pub set : ℕ → ℕ → String → List ℕ → ℕ → Items → Items
unfolding drop_expired drop_one write
set now chance key value ttl items =
    if is_accepted value ttl
    then write key (record { value = value; expires = now + ttl })
        (drop_one chance (drop_expired now items))
    else items

-- A category that Redis would read as a pattern is refused.
abbrev pub is_special : ℕ → Bool
is_special c = c == 42 || c == 63 || c == 91 || c == 93

unfoldable pub has_special : String → Bool
has_special String.[] = false
has_special (String.◌∷◌ c s) = is_special (code c) || has_special s

unfoldable pub invalidate : String → Items → Result Items
unfolding has_special has_prefix
invalidate category items = do
  guard (not (has_special category)) bad_category
  ok (keep (λ row. not (has_prefix category row.0)) items)
