-- ===== src/Cache/Calls.antt =====
-- Calls of the local map of cache/cache.go, and what has been written by them.
use guangyue_panel.Prelude.{
  ℕ, ◌+◌, ◌%◌, ◌≡◌, ◌∙◌, refl, sym, subst, String, Bool, true, false, not, ◌&&◌, Option, none, some,
  List, [], ◌∷◌, if◌then◌else◌, leb, ◌==◌, nat_eq, string_eq, lookup, keep, length, get_elem?,
  arith, All, Bool-cases, inl, inr, Result, ok, err,
}
use guangyue_panel.Prelude.Text.{has_prefix}
use guangyue_panel.Cache.{
  CacheEntry, Items, expired, forget, write, read, get, drop_expired, drop_key, drop_one,
  is_accepted, set, has_special, invalidate,
}

-- A call of the cache.
pub data Call : Type 0 where
  gets : (now : ℕ) (key : String) → Call
  sets : (now chance : ℕ) (key : String) (value : List ℕ) (ttl : ℕ) → Call
  invalidates : (category : String) → Call

abbrev pub kept : Items → Result Items → Items
kept items (ok after) = after
kept items (err e) = items

-- The map after calls, the last one first.
unfoldable pub after : List Call → Items
unfolding get set invalidate
after [] = []
after (gets now key ∷ calls) = (get now key (after calls)).1
after (sets now chance key value ttl ∷ calls) = set now chance key value ttl (after calls)
after (invalidates category ∷ calls) = kept (after calls) (invalidate category (after calls))

-- What has been written last under a key and not been invalidated since.
unfoldable pub latest : List Call → String → Option CacheEntry
unfolding has_special has_prefix
latest [] k = none
latest (gets now key ∷ calls) k = latest calls k
latest (sets now chance key value ttl ∷ calls) k =
    let before = latest calls k in
    if is_accepted value ttl && key == k
    then some (record { value = value; expires = now + ttl })
    else before
latest (invalidates category ∷ calls) k =
    let before = latest calls k in
    if not (has_special category) && has_prefix category k then none else before

abbrev Agrees : (String → Option CacheEntry) → Items → Type 0
Agrees f items = All (λ row. f row.0 ≡ some row.1) items

keep-Agrees :
    (f : String → Option CacheEntry) (p : String × CacheEntry → Bool) (items : Items)
    → Agrees f items
    → Agrees f (keep p items)
keep-Agrees f p [] a = tt
keep-Agrees f p (row ∷ rows) a = elim (Bool-cases (p row)) [
  | inl in' ↦ rw in' (a.0, keep-Agrees f p rows a.1)
  | inr out ↦ rw out (keep-Agrees f p rows a.1)
]

-- The rows that are kept may go by another function that is the same on them.
change-Agrees :
    (f g : String → Option CacheEntry) (p : String × CacheEntry → Bool) (items : Items)
    → ((row : String × CacheEntry) → p row ≡ true → g row.0 ≡ f row.0)
    → Agrees f items
    → Agrees g (keep p items)
change-Agrees f g p [] same a = tt
change-Agrees f g p (row ∷ rows) same a = elim (Bool-cases (p row)) [
  | inl in' ↦ rw in' (same row in' ∙ a.0, change-Agrees f g p rows same a.1)
  | inr out ↦ rw out (change-Agrees f g p rows same a.1)
]

pub found-Agrees :
    (f : String → Option CacheEntry) (k : String) (items : Items) (e : CacheEntry)
    → Agrees f items
    → lookup k items ≡ some e
    → f k ≡ some e
unfolding lookup
found-Agrees f k [] e a h = cc h
found-Agrees f k ((key, x) ∷ rows) e a h =
    ground (arith, h, a.0, string_eq.beq_iff key k, found-Agrees f k rows e a.1)

forget-Agrees :
    (f : String → Option CacheEntry) (key : String) (items : Items)
    → Agrees f items
    → Agrees f (forget key items)
unfolding forget
forget-Agrees f key items a = keep-Agrees f (λ row. not (row.0 == key)) items a

read-Agrees :
    (f : String → Option CacheEntry) (now : ℕ) (key : String) (items : Items)
    (x : Option CacheEntry)
    → Agrees f items
    → Agrees f (read now key items x).1
read-Agrees f now key items none a = forget-Agrees f key items a
read-Agrees f now key items (some e) a = elim (Bool-cases (expired now e)) [
  | inl old ↦ rw old (forget-Agrees f key items a)
  | inr new ↦ rw new a
]

if-Agrees :
    (f : String → Option CacheEntry) (b : Bool) (x y : Items)
    → Agrees f x
    → Agrees f y
    → Agrees f (if b then x else y)
if-Agrees f true x y a a' = a
if-Agrees f false x y a a' = a'

drop_key-Agrees :
    (f : String → Option CacheEntry) (x : Option (String × CacheEntry)) (items : Items)
    → Agrees f items
    → Agrees f (drop_key x items)
drop_key-Agrees f none items a = a
drop_key-Agrees f (some (key, e)) items a = forget-Agrees f key items a

dropped-Agrees :
    (f : String → Option CacheEntry) (now chance : ℕ) (items : Items)
    → Agrees f items
    → Agrees f (drop_one chance (drop_expired now items))
unfolding drop_one drop_expired
dropped-Agrees f now chance items a =
    let fresh = keep (λ row. not (expired now row.1)) items in
    let first = if leb 16 (length items) then fresh else items in
    let b =
      if-Agrees f (leb 16 (length items)) fresh items
        (keep-Agrees f (λ row. not (expired now row.1)) items a) a in
    let one = get_elem? first (chance % length first) in
    if-Agrees f (leb 16 (length first)) (drop_key one first) first (drop_key-Agrees f one first b) b

if_true' : (b : Bool) (x y : Items) → b ≡ true → (if b then x else y) ≡ x
if_true' true x y h = refl
if_true' false x y h = cc h

other_key : (k key : String) → not (k == key) ≡ true → (key == k) ≡ false
other_key k key h = ground (arith, h, string_eq.beq_iff k key, string_eq.beq_iff key k)

same_key : (key : String) → (key == key) ≡ true
same_key key = (string_eq.beq_iff key key).1 refl

set-Agrees :
    (calls : List Call) (now chance : ℕ) (key : String) (value : List ℕ) (ttl : ℕ) (items : Items)
    → Agrees (latest calls) items
    → Agrees (latest (sets now chance key value ttl ∷ calls)) (set now chance key value ttl items)
unfolding set write forget latest
set-Agrees calls now chance key value ttl items a = elim (Bool-cases (is_accepted value ttl)) [
  | inl accepted ↦
      let dropped = drop_one chance (drop_expired now items) in
      let e : CacheEntry = record { value = value; expires = now + ttl } in
      let p : String × CacheEntry → Bool = λ row. not (row.0 == key) in
      let head : latest (sets now chance key value ttl ∷ calls) key ≡ some e =
        rw (accepted, same_key key) refl in
      let rest =
        change-Agrees (latest calls) (latest (sets now chance key value ttl ∷ calls)) p dropped
          (λ row h. rw (accepted, other_key row.0 key h) refl)
          (dropped-Agrees (latest calls) now chance items a) in
      subst (Agrees (latest (sets now chance key value ttl ∷ calls)))
        (sym (if_true' (is_accepted value ttl) (write key e dropped) items accepted)) (head, rest)
  | inr no' ↦ rw no' a
]

other_prefix :
    (hit : Bool) (before : Option CacheEntry)
    → not hit ≡ true
    → (if hit then none else before) ≡ before
other_prefix hit before h = ground (arith, h)

invalidate-Agrees :
    (calls : List Call) (category : String) (items : Items)
    → Agrees (latest calls) items
    → Agrees (latest (invalidates category ∷ calls)) (kept items (invalidate category items))
unfolding invalidate latest
invalidate-Agrees calls category items a = elim (Bool-cases (has_special category)) [
  | inl refused ↦ rw refused a
  | inr plain ↦
      let shown : String × CacheEntry → Bool = λ row. not (has_prefix category row.0) in
      let left : String → Option CacheEntry =
        λ k. if has_prefix category k then none else latest calls k in
      rw plain (
        change-Agrees (latest calls) left shown items
          (λ row h. other_prefix (has_prefix category row.0) (latest calls row.0) h) a)
]

pub after-Agrees : (calls : List Call) → Agrees (latest calls) (after calls)
unfolding latest after get
after-Agrees [] = tt
after-Agrees (gets now key ∷ calls) =
    read-Agrees (latest calls) now key (after calls) (lookup key (after calls)) (after-Agrees calls)
after-Agrees (sets now chance key value ttl ∷ calls) =
    set-Agrees calls now chance key value ttl (after calls) (after-Agrees calls)
after-Agrees (invalidates category ∷ calls) =
    invalidate-Agrees calls category (after calls) (after-Agrees calls)
