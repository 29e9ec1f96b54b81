-- ===== src/Prelude/Maps.antt =====
-- Go maps and keyed SQL tables as association lists: the first row of a key is its row.
use mathlib.Core.Path.{◌≡◌, refl}
use mathlib.Core.Bool.{Bool, true, false}
use mathlib.Core.Option.{Option, none, some}
use mathlib.Core.List.{List, [], ◌∷◌}
use native.Mathlib.Omega.{arith}
use guangyue_panel.Prelude.Tests.{Eq, ◌==◌, if◌then◌else◌}

abbrev pub Map {ℓ κ} : Type ℓ → Type κ → Type (ℓ ⊔ κ)
Map K V = List (K × V)

module _ {ℓ κ} {K : Type ℓ} {V : Type κ} ⦃e : Eq K⦄ where
  unfoldable pub lookup : K → Map K V → Option V
  lookup key ((at, value) ∷ rows) = if at == key then some value else lookup key rows
  lookup key [] = none

  unfoldable pub delete : K → Map K V → Map K V
  delete key ((at, value) ∷ rows) =
      let rest = delete key rows in if at == key then rest else (at, value) ∷ rest
  delete key [] = []

  unfoldable pub insert : K → V → Map K V → Map K V
  insert key new ((at, value) ∷ rows) =
      if at == key then (key, new) ∷ rows else (at, value) ∷ insert key new rows
  insert key new [] = (key, new) ∷ []

  -- A key that is read back has the value last written at it.
  pub lookup-insert :
      (key asked : K) (new : V) (rows : Map K V)
      → lookup asked (insert key new rows) ≡ (if key == asked then some new else lookup asked rows)
  unfolding lookup insert
  lookup-insert key asked new ((at, value) ∷ rows) = ground (
    arith,
    lookup-insert key asked new rows,
    e.beq_iff at key,
    e.beq_iff at asked,
    e.beq_iff key asked,
  )
  lookup-insert key asked new [] = refl

  -- Writing what is there already changes nothing.
  pub insert-same : (k : K) (v : V) (m : Map K V) → lookup k m ≡ some v → insert k v m ≡ m
  unfolding lookup insert
  insert-same k v [] h = absurd (ground arith)
  insert-same k v ((j, w) ∷ m) h = ground (arith, e.beq_iff j k, h, insert-same k v m)

  pub lookup-delete :
      (k j : K) (m : Map K V) → lookup j (delete k m) ≡ (if k == j then none else lookup j m)
  unfolding lookup delete
  lookup-delete k j [] = ground arith
  lookup-delete k j ((i, w) ∷ m) =
      ground (arith, lookup-delete k j m, e.beq_iff i k, e.beq_iff i j, e.beq_iff k j)

-- Whether a key is in the map; the value of a missing key is the zero value.
abbrev pub value_or {ℓ} : {V : Type ℓ} → V → Option V → V
value_or d none = d
value_or d (some v) = v

abbrev pub is_some {ℓ} : {V : Type ℓ} → Option V → Bool
is_some none = false
is_some (some v) = true
