-- ===== src/Jobs/Rows.antt =====
-- What an update of the rows of the queue keeps.
use guangyue_panel.Prelude.{
  ℕ, ◌≤◌, ◌≡◌, String, Bool, true, none, some, List, [], ◌∷◌, nat_eq, string_eq, if◌then◌else◌,
  sum_of, All, arith, Bool-cases, inl, inr,
}
use guangyue_panel.Jobs.{Task, is_active, has_key, key_of, update_where}

-- How many tasks have not ended, and how many rows carry a key.
abbrev pub active_count : List Task → ℕ
active_count ts = sum_of (λ t. if is_active t then 1 else 0) ts

abbrev pub key_count : String → List Task → ℕ
key_count k ts = sum_of (λ t. if has_key k t then 1 else 0) ts

-- A row: its key is that of its kind and target until it ends, and it has no end until then.
pub record IsRow (t : Task) : Type 0 where
  pub key : t.dedup_key ≡ (if is_active t then some (key_of t.kind t.target) else none)
  pub open_end : is_active t ≡ true → t.finished ≡ 0

pub record IsQueue (capacity : ℕ) (ts : List Task) : Type 0 where
  pub within : active_count ts ≤ capacity
  pub alone : (k : String) → key_count k ts ≤ 1
  pub rows : All IsRow ts

-- An update that turns no row into one that counts more does not raise a sum.
update_le :
    (p : Task → Bool) (f : Task → Task) (g : Task → ℕ) (ts : List Task)
    → ((t : Task) → p t ≡ true → g (f t) ≤ g t)
    → sum_of g (update_where p f ts) ≤ sum_of g ts
update_le p f g [] h = omega arith
update_le p f g (t ∷ ts) h = ground (arith, update_le p f g ts h, h t)

update_rows :
    (p : Task → Bool) (f : Task → Task) (ts : List Task)
    → ((t : Task) → p t ≡ true → IsRow t → IsRow (f t))
    → All IsRow ts
    → All IsRow (update_where p f ts)
update_rows p f [] h rows = tt
update_rows p f (t ∷ ts) h (r, rows) = elim (Bool-cases (p t)) [
  | inl hit ↦ rw hit (h t hit r, update_rows p f ts h rows)
  | inr miss ↦ rw miss (r, update_rows p f ts h rows)
]

-- What a change of one row has to keep.
pub record Calms (p : Task → Bool) (f : Task → Task) : Type 0 where
  pub activity : (t : Task) → p t ≡ true → is_active (f t) ≡ true → is_active t ≡ true
  pub keys : (t : Task) (k : String) → p t ≡ true → has_key k (f t) ≡ true → has_key k t ≡ true
  pub row : (t : Task) → p t ≡ true → IsRow t → IsRow (f t)

pub update-IsQueue :
    (capacity : ℕ) (p : Task → Bool) (f : Task → Task) (ts : List Task)
    → Calms p f
    → IsQueue capacity ts
    → IsQueue capacity (update_where p f ts)
update-IsQueue capacity p f ts c q = record {
  within = omega (
    arith,
    q.within,
    update_le p f (λ t. if is_active t then 1 else 0) ts (λ t h. ground (arith, c.activity t h)),
  );
  alone = λ k. omega (
    arith,
    q.alone k,
    update_le p f (λ t. if has_key k t then 1 else 0) ts (λ t h. ground (arith, c.keys t k h)),
  );
  rows = update_rows p f ts c.row q.rows;
}
