-- ===== src/Support/Walk.antt =====
-- A reader who follows the cursors of `supportTicketPage` until there are no more pages.
use guangyue_panel.Prelude.{
  ℕ, zero, suc, ◌≤◌, ◌<◌, ◌≡◌, ◌∙◌, refl, sym, subst, ap, String, Bool, false, Option, some, none,
  List, [], ◌∷◌, ◌++◌, if◌then◌else◌, ltb, ltb→lt, arith, keep, take, drop, length, All, Bool-cases,
  inl, inr, take-append-drop, length-drop,
}
use guangyue_panel.Prelude.Text.{TextOrder, trim_space}
use guangyue_panel.Support.{Ticket}
use guangyue_panel.Support.Page.{PageCall, Page, below, listed, support_ticket_page}
use guangyue_panel.Support.Sorted.{
  last_id, last-All, Descending, keep-Descending, rest_after, All-keep,
}
use guangyue_panel.Support.Pages.{matches, asked_for, support_ticket_page_lem}
use guangyue_panel.Support.Scans.{take-all}

abbrev before_all : List Ticket → Option (List Ticket) → Option (List Ticket)
before_all items none = none
before_all items (some rest) = some (items ++ rest)

-- The tickets of a page, and those of the pages after it.
unfoldable pub follow : Option Page → (String → Option (List Ticket)) → Option (List Ticket)
follow none rest = none
follow (some p) rest = if p.more then before_all p.items (rest p.next) else some p.items

unfoldable pub walk : ℕ → PageCall → List Ticket → String → Option (List Ticket)
unfolding follow
walk zero c rows before = none
walk (suc fuel) c rows before =
    follow (support_ticket_page (suc (length rows)) c before rows) (λ next. walk fuel c rows next)

-- Tests in either order keep the same.
keep_comm {ℓ} :
    {A : Type ℓ} (p q : A → Bool) (xs : List A) → keep p (keep q xs) ≡ keep q (keep p xs)
keep_comm p q [] = refl
keep_comm p q (x ∷ xs) = ground (arith, keep_comm p q xs)

last-of :
    (order : TextOrder) (P : String → Type 0) (ts : List Ticket) (n : ℕ)
    → n < length ts
    → All (λ u. P u.id) ts
    → P (last_id "" (take (suc n) ts))
last-of order P [] n short h = absurd (omega (arith, short))
last-of order P (t ∷ ts) n short h = last-All order P t ts n short h

-- An id has no space at its ends.
abbrev pub Trimmed : List Ticket → Type 0
Trimmed rows = All (λ t. trim_space t.id ≡ t.id) rows

module _ (c : PageCall) (rows : List Ticket) (sorted : Descending c.order rows)
    (trimmed : Trimmed rows) where
  asked_for-Trimmed : (cursor : String) → Trimmed (asked_for c cursor rows)
  asked_for-Trimmed cursor =
      let P = λ (t : Ticket). trim_space t.id ≡ t.id in
      All-keep P (matches c) (keep (below c.order cursor) (keep (listed c) rows)) (
        All-keep P (below c.order cursor) (keep (listed c) rows)
          (All-keep P (listed c) rows trimmed))

  -- The cursor of a full page asks for the tickets that are not on it.
  asked_for-next :
      (cursor : String)
      → 50 ≤ length (asked_for c cursor rows)
      → asked_for c (last_id "" (take 50 (asked_for c cursor rows))) rows
        ≡ drop 50 (asked_for c cursor rows)
  asked_for-next cursor full =
      let shown = keep (listed c) rows in
      let found = keep (matches c) shown in
      let e = keep_comm (below c.order cursor) (matches c) shown in
      keep_comm (matches c) (below c.order (last_id "" (take 50 (asked_for c cursor rows)))) shown
      ∙ (rest_after c.order cursor found (asked_for c cursor rows) 49
          (keep-Descending c.order (matches c) shown
            (keep-Descending c.order (listed c) rows sorted))
          e (omega (arith, full))).1

  walk-found :
      (fuel : ℕ) (before : String)
      → length (asked_for c (trim_space before) rows) < fuel
      → walk fuel c rows before ≡ some (asked_for c (trim_space before) rows)
  unfolding walk follow
  walk-found zero before enough = absurd (omega (arith, enough))
  walk-found (suc fuel) before enough =
      let found = asked_for c (trim_space before) rows in
      ap (λ p. follow p (λ next. walk fuel c rows next))
        (support_ticket_page_lem c before rows (suc (length rows)) sorted (omega arith))
      ∙ (elim (Bool-cases (ltb 50 (length found))) [
        | inl more ↦
            let big = ltb→lt 50 (length found) more in
            let unlast : ltb (length found) 50 ≡ false = ground (arith, big) in
            let z = last_id "" (take 50 found) in
            let clean =
              last-of c.order (λ x. trim_space x ≡ x) found 49 (omega (arith, big))
                (asked_for-Trimmed (trim_space before)) in
            let rest : asked_for c (trim_space z) rows ≡ drop 50 found =
              ap (λ x. asked_for c x rows) clean
              ∙ asked_for-next (trim_space before) (omega (arith, big)) in
            let ih = walk-found fuel z (
              subst (λ x. length x < fuel) (sym rest)
                (omega (arith, length-drop 50 found, enough, big))) in
            rw (more, unlast)
              (ap (before_all (take 50 found)) (ih ∙ ap some rest)
                ∙ ap some (take-append-drop 50 found))
        | inr last ↦
            let few : length found ≤ 50 = ground (arith, last) in
            rw last (ap some (take-all 50 found few))
      ])

-- On rows in the order of the query, with names that have no space at their ends, a reader who
-- follows the cursor of each page to the next one comes to an end, in fewer pages than there are
-- tickets asked for and one more, and has seen every ticket asked for once, in order.
pub walk-all :
    (c : PageCall) (rows : List Ticket) (before : String) (fuel : ℕ)
    → Descending c.order rows
    → Trimmed rows
    → length (asked_for c (trim_space before) rows) < fuel
    → walk fuel c rows before ≡ some (asked_for c (trim_space before) rows)
walk-all c rows before fuel sorted trimmed enough =
    walk-found c rows sorted trimmed fuel before enough
