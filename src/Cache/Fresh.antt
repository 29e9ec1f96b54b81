-- ===== src/Cache/Fresh.antt =====
-- The local map of cache/cache.go against what has been written to it.
use guangyue_panel.Prelude.{
  ℕ, zero, suc, ◌%◌, ◌≤◌, ◌<◌, ◌≡◌, refl, String, Bool, true, false, not, Option, none, some, List,
  [], ◌∷◌, if◌then◌else◌, leb, ◌==◌, nat_eq, string_eq, lookup, length, length-keep-le, get_elem?,
  arith, Bool-cases, inl, inr,
}
use native.Mathlib.Nat.{mod-lt}
use guangyue_panel.Prelude.Text.{has_prefix}
use guangyue_panel.Cache.{
  CacheEntry, Items, expired, forget, write, read, get, drop_expired, drop_one, is_accepted, set,
  has_special, invalidate,
}
use guangyue_panel.Cache.Calls.{
  Call, after, latest, found-Agrees, after-Agrees, gets, sets, invalidates,
}

forget-le : (key : String) (items : Items) → length (forget key items) ≤ length items
unfolding forget
forget-le key items = length-keep-le (λ row. not (row.0 == key)) items

-- A key that stands in the map makes it smaller when it goes.
forget_shrinks :
    (items : Items) (i : ℕ) (key : String) (e : CacheEntry)
    → get_elem? items i ≡ some (key, e)
    → length (forget key items) < length items
unfolding forget
forget_shrinks [] i key e h = cc h
forget_shrinks (row ∷ rows) zero key e h =
    let own : row.0 ≡ key = cc h in
    let hit = (string_eq.beq_iff row.0 key).1 own in
    rw hit (omega (arith, length-keep-le (λ r. not (r.0 == key)) rows))
forget_shrinks (row ∷ rows) (suc i) key e h = elim (Bool-cases (row.0 == key)) [
  | inl hit ↦ rw hit (omega (arith, length-keep-le (λ r. not (r.0 == key)) rows))
  | inr miss ↦ rw miss (omega (arith, forget_shrinks rows i key e h))
]

some_row :
    (items : Items) (i : ℕ)
    → i < length items
    → (row : String × CacheEntry) × (get_elem? items i ≡ some row)
some_row [] i h = absurd (omega (arith, h))
some_row (row ∷ rows) zero h = (row, refl)
some_row (row ∷ rows) (suc i) h = some_row rows i (omega (arith, h))

drop_one-small :
    (chance : ℕ) (items : Items) → length items ≤ 16 → length (drop_one chance items) ≤ 15
unfolding drop_one
drop_one-small chance items small = elim (Bool-cases (leb 16 (length items))) [
  | inl full ↦
      let r =
        some_row items (chance % length items)
          (mod-lt chance {m = length items} (ground (arith, full))) in
      rw (full, r.1)
        (omega (arith, small, forget_shrinks items (chance % length items) r.0.0 r.0.1 r.1))
  | inr room ↦ rw room (ground (arith, room))
]

drop_expired-le : (now : ℕ) (items : Items) → length (drop_expired now items) ≤ length items
unfolding drop_expired
drop_expired-le now items = ground (arith, length-keep-le (λ row. not (expired now row.1)) items)

set-small :
    (now chance : ℕ) (key : String) (value : List ℕ) (ttl : ℕ) (items : Items)
    → length items ≤ 16
    → length (set now chance key value ttl items) ≤ 16
unfolding set write
set-small now chance key value ttl items small =
    let dropped = drop_one chance (drop_expired now items) in
    let few =
      drop_one-small chance (drop_expired now items)
        (omega (arith, small, drop_expired-le now items)) in
    elim (Bool-cases (is_accepted value ttl)) [
      | inl accepted ↦ rw accepted (omega (arith, few, forget-le key dropped))
      | inr other ↦ rw other small
    ]

read-small :
    (now : ℕ) (key : String) (items : Items) (x : Option CacheEntry)
    → length items ≤ 16
    → length (read now key items x).1 ≤ 16
read-small now key items none small = omega (arith, small, forget-le key items)
read-small now key items (some e) small = elim (Bool-cases (expired now e)) [
  | inl old ↦ rw old (omega (arith, small, forget-le key items))
  | inr new ↦ rw new small
]

after-small : (calls : List Call) → length (after calls) ≤ 16
unfolding after get invalidate
after-small [] = omega arith
after-small (gets now key ∷ calls) =
    read-small now key (after calls) (lookup key (after calls)) (after-small calls)
after-small (sets now chance key value ttl ∷ calls) =
    set-small now chance key value ttl (after calls) (after-small calls)
after-small (invalidates category ∷ calls) = elim (Bool-cases (has_special category)) [
  | inl refused ↦ rw refused (after-small calls)
  | inr plain ↦ rw plain (
      omega (
        arith,
        after-small calls,
        length-keep-le (λ row. not (has_prefix category row.0)) (after calls),
      ))
]

answered :
    (old : Bool) (x y : Items) (value v : List ℕ)
    → ◌≡◌ {A = Option (List ℕ)}
        (if◌then◌else◌ {A = Option (List ℕ) × Items} old (none, x) (some value, y)).0
        (some v)
    → (old ≡ false) × (value ≡ v)
answered true x y value v h = cc h
answered false x y value v h = (refl, cc h)

-- What `get` answers is a row of the map that has not expired.
read-some :
    (now : ℕ) (key : String) (items : Items) (x : Option CacheEntry) (v : List ℕ)
    → (read now key items x).0 ≡ some v
    → (e : CacheEntry) × (x ≡ some e) × (e.value ≡ v) × (now ≤ e.expires)
read-some now key items none v h = cc h
read-some now key items (some e) v h =
    let a = answered (expired now e) (forget key items) items e.value v h in
    (e, refl, a.1, ground (arith, a.0))

-- If a read after any calls, with any choice of the entries that make room, answers a value, then
-- it is the one that has been written last under the key, by a call that was accepted and has not
-- been invalidated since, and it has not expired; and at most sixteen entries are kept.
pub get-latest :
    (calls : List Call) (now : ℕ) (key : String) (v : List ℕ)
    → (get now key (after calls)).0 ≡ some v
    → ((e : CacheEntry) × (latest calls key ≡ some e) × (e.value ≡ v) × (now ≤ e.expires))
      × (length (after calls) ≤ 16)
unfolding get
get-latest calls now key v h =
    let (e, there, same, fresh) = read-some now key (after calls) (lookup key (after calls)) v h in
    (
      (e, found-Agrees (latest calls) key (after calls) e (after-Agrees calls) there, same, fresh),
      after-small calls,
    )
