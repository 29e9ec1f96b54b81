-- ===== src/Support/Sorted.antt =====
-- Rows in descending order of their ids, and what a cursor leaves of them.
use guangyue_panel.Prelude.{
  ℕ, zero, suc, ◌<◌, ◌≡◌, ◌≢◌, ◌∙◌, refl, sym, subst, ap, ◌==◌, ◌||◌, String, Bool, true, false,
  ◌&&◌, List, [], ◌∷◌, ◌++◌, string_eq, arith, keep, take, drop, length, All, Bool-cases, inl, inr,
}
use guangyue_panel.Prelude.Text.{TextOrder}
use guangyue_panel.Support.{Ticket}
use guangyue_panel.Support.Page.{below}

-- Keeping by two tests, one after the other.
module _ {ℓ} {A : Type ℓ} where
  pub keep-keep : (p q : A → Bool) (xs : List A) → keep p (keep q xs) ≡ keep (λ x. p x && q x) xs
  keep-keep p q [] = refl
  keep-keep p q (x ∷ xs) = ground (arith, keep-keep p q xs)

  pub keep-All : (p : A → Bool) (xs : List A) → All (λ x. p x ≡ true) (keep p xs)
  keep-All p [] = tt
  keep-All p (x ∷ xs) = ground (arith, keep-All p xs)

  pub All-keep {κ} : (P : A → Type κ) (p : A → Bool) (xs : List A) → All P xs → All P (keep p xs)
  All-keep P p [] h = tt
  All-keep P p (x ∷ xs) h = elim (Bool-cases (p x)) [
    | inl yes' ↦ rw yes' (h.0, All-keep P p xs h.1)
    | inr no' ↦ rw no' (All-keep P p xs h.1)
  ]

  -- A test that holds of no element, or of all of them.
  pub keep-all : (p : A → Bool) (xs : List A) → All (λ x. p x ≡ true) xs → keep p xs ≡ xs
  keep-all p [] h = refl
  keep-all p (x ∷ xs) h = ground (arith, keep-all p xs, h.0, h.1)

  pub keep-keep_implied :
      (p q : A → Bool) (xs : List A)
      → ((x : A) → p x ≡ true → q x ≡ true)
      → keep p (keep q xs) ≡ keep p xs
  keep-keep_implied p q [] h = refl
  keep-keep_implied p q (x ∷ xs) h = ground (arith, h x, keep-keep_implied p q xs h)

  pub keep-append : (p : A → Bool) (xs ys : List A) → keep p (xs ++ ys) ≡ keep p xs ++ keep p ys
  keep-append p [] ys = refl
  keep-append p (x ∷ xs) ys = ground (arith, keep-append p xs ys)

-- The id of the last row, or what stands before it.
abbrev pub last_id : String → List Ticket → String
last_id before [] = before
last_id before (t ∷ ts) = last_id t.id ts

pub last_id-append :
    (before : String) (xs ys : List Ticket)
    → last_id before (xs ++ ys) ≡ last_id (last_id before xs) ys
last_id-append before [] ys = refl
last_id-append before (x ∷ xs) ys = last_id-append x.id xs ys

module _ (order : TextOrder) where
  abbrev pub Descending : List Ticket → Type 0
  Descending [] = Unit
  Descending (t ∷ ts) = (t.id ≢ "") × All (λ u. order.less u.id t.id ≡ true) ts × Descending ts

  pub keep-Descending :
      (p : Ticket → Bool) (ts : List Ticket) → Descending ts → Descending (keep p ts)
  keep-Descending p [] d = tt
  keep-Descending p (t ∷ ts) d = elim (Bool-cases (p t)) [
    | inl in' ↦
        rw in' (d.0, All-keep (λ u. order.less u.id t.id ≡ true) p ts d.1, keep-Descending p ts d.2)
    | inr out ↦ rw out (keep-Descending p ts d.2)
  ]

  -- What holds of all rows holds of the last one.
  pub last-All {κ} :
      (P : String → Type κ) (t : Ticket) (ts : List Ticket) (n : ℕ)
      → n < length (t ∷ ts)
      → All (λ u. P u.id) (t ∷ ts)
      → P (last_id t.id (take n ts))
  last-All P t ts zero short h = h.0
  last-All P t [] (suc n) short h = h.0
  last-All P t (u ∷ ts) (suc n) short h = last-All P u ts n (omega arith) h.1

  named : (ts : List Ticket) → Descending ts → All (λ t. t.id ≢ "") ts
  named [] d = tt
  named (t ∷ ts) d = (d.0, named ts d.2)

  below-less :
      (cursor : String) (t : Ticket) → cursor ≢ "" → below order cursor t ≡ order.less t.id cursor
  below-less cursor t given = ground (arith, string_eq.beq_iff cursor "")

  keep-none :
      (cursor : String) (ts : List Ticket)
      → cursor ≢ ""
      → All (λ t. order.less t.id cursor ≡ true) ts
      → keep (below order cursor) ts ≡ ts
  keep-none cursor [] given h = refl
  keep-none cursor (t ∷ ts) given h =
      ground (arith, below-less cursor t, h.0, keep-none cursor ts given h.1)

  keep-skip :
      (cursor : String) (t : Ticket) (ts : List Ticket)
      → below order cursor t ≡ false
      → keep (below order cursor) (t ∷ ts) ≡ keep (below order cursor) ts
  keep-skip cursor t ts h = rw h

  asymmetric : (a b : String) → order.less a b ≡ true → order.less b a ≡ false
  asymmetric a b h = elim (Bool-cases (order.less b a)) [
    | inl back ↦ cc (order.transitive a b a h back, order.irreflexive a)
    | inr none' ↦ none'
  ]

  -- The rows below the last one that was taken are those that were not.
  pub keep-below_last :
      (t : Ticket) (ts : List Ticket) (n : ℕ)
      → n < length (t ∷ ts)
      → Descending (t ∷ ts)
      → keep (below order (last_id t.id (take n ts))) (t ∷ ts) ≡ drop n ts
  keep-below_last t ts zero short d =
      keep-skip t.id t ts (below-less t.id t d.0 ∙ order.irreflexive t.id)
      ∙ keep-none t.id ts d.0 d.1
  keep-below_last t [] (suc n) short d = absurd (omega arith)
  keep-below_last t (u ∷ ts) (suc n) short d =
      let z = last_id u.id (take n ts) in
      let under = last-All (λ x. order.less x t.id ≡ true) u ts n (omega arith) d.1 in
      let given = last-All (λ x. x ≢ "") u ts n (omega arith) (named (u ∷ ts) d.2) in
      keep-skip z t (u ∷ ts) (below-less z t given ∙ asymmetric z t.id under)
      ∙ keep-below_last u ts n (omega arith) d.2

  -- A row below the last of some rows that are below a cursor is below the cursor.
  below_trans :
      (cursor z : String) (t : Ticket)
      → z ≢ ""
      → (cursor == "" || order.less z cursor) ≡ true
      → below order z t ≡ true
      → below order cursor t ≡ true
  below_trans cursor z t given under h =
      ground (arith, below-less z t given, order.transitive t.id z cursor)

  -- The cursor of the last row that was taken leaves exactly the rows that were not.
  pub rest_after :
      (cursor : String) (all some' : List Ticket) (n : ℕ)
      → Descending all
      → keep (below order cursor) all ≡ some'
      → n < length some'
      → (last_id "" (take (suc n) some') ≢ "")
        × (keep (below order (last_id "" (take (suc n) some'))) all ≡ drop (suc n) some')
  rest_after cursor all [] n d e short = absurd (omega (arith, short))
  rest_after cursor all (t ∷ ts) n d e short =
      let z = last_id t.id (take n ts) in
      let sorted = subst Descending e (keep-Descending (below order cursor) all d) in
      let given = last-All (λ x. x ≢ "") t ts n short (named (t ∷ ts) sorted) in
      let kept =
        subst (All (λ u. below order cursor u ≡ true)) e (keep-All (below order cursor) all) in
      let under = last-All (λ x. (cursor == "" || order.less x cursor) ≡ true) t ts n short kept in
      (
        given,
        sym (
              keep-keep_implied (below order z) (below order cursor) all
                (λ u. below_trans cursor z u given under))
            ∙ ap (keep (below order z)) e
            ∙ keep-below_last t ts n short sorted,
      )
