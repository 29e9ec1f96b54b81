-- ===== src/Prelude/Rows.antt =====
-- Sums over the rows of a table, and the tests on its rows that a write keeps.
use Prim.Native.Nat.{ℕ, ◌+◌}
use mathlib.Core.Path.{◌≡◌}
use mathlib.Core.Logic.{inl, inr}
use mathlib.Core.Option.{none, some}
use mathlib.Core.List.{[], ◌∷◌}
use native.Mathlib.Omega.{arith}
use guangyue_panel.Prelude.Tests.{Eq, ◌==◌, Bool-cases}
use guangyue_panel.Prelude.Lists.{sum_of}
use guangyue_panel.Prelude.Maps.{Map, lookup, insert, lookup-insert}

module _ {ℓ κ} {K : Type ℓ} {V : Type κ} ⦃e : Eq K⦄ where
  -- `SELECT SUM(...)` or `COUNT(*)` over a table.
  abbrev pub sum_rows : (V → ℕ) → Map K V → ℕ
  sum_rows f rows = sum_of (λ row. f row.1) rows

  -- Writing a row in place of another changes the sum by the difference of the two.
  pub sum_rows-insert :
      (f : V → ℕ) (key : K) (new old : V) (rows : Map K V)
      → lookup key rows ≡ some old
      → sum_rows f (insert key new rows) + f old ≡ sum_rows f rows + f new
  unfolding lookup insert
  sum_rows-insert f key new old [] h = absurd (ground arith)
  sum_rows-insert f key new old ((at, value) ∷ rows) h = elim (Bool-cases (at == key)) [
    | inl hit ↦ ground (arith, hit)
    | inr miss ↦ ground (arith, miss, sum_rows-insert f key new old rows)
  ]

  -- A new row adds its own value.
  pub sum_rows-insert_new :
      (f : V → ℕ) (key : K) (new : V) (rows : Map K V)
      → lookup key rows ≡ none
      → sum_rows f (insert key new rows) ≡ sum_rows f rows + f new
  unfolding lookup insert
  sum_rows-insert_new f key new [] h = ground arith
  sum_rows-insert_new f key new ((at, value) ∷ rows) h = elim (Bool-cases (at == key)) [
    | inl hit ↦ absurd (ground (arith, hit))
    | inr miss ↦ ground (arith, miss, sum_rows-insert_new f key new rows)
  ]

  -- What holds of the rows of a table and of a row that is written holds of the rows afterwards.
  pub rows-insert {μ} :
      (P : K → V → Type μ) (key : K) (new : V) (rows : Map K V)
      → P key new
      → ((k : K) (v : V) → lookup k rows ≡ some v → P k v)
      → (k : K) (v : V) → lookup k (insert key new rows) ≡ some v
      → P k v
  rows-insert P key new rows p keep k v h = elim (Bool-cases (key == k)) [
    | inl hit ↦ ground (arith, lookup-insert key k new rows, hit, e.beq_iff key k, h)
    | inr miss ↦ keep k v (ground (arith, lookup-insert key k new rows, miss, h))
  ]
