-- ===== src/Support/Pages.antt =====
-- What `supportTicketPage` (controlplane/support_ticket_state.go) returns.
use guangyue_panel.Prelude.{
  ℕ, zero, suc, ◌≤◌, ◌<◌, ◌≡◌, ◌≢◌, ◌∙◌, refl, sym, subst, ap, String, Bool, true, false, Option,
  some, List, [], ◌++◌, if◌then◌else◌, ltb, nat_eq, string_eq, ltb→lt, arith, keep, take, drop,
  length, Bool-cases, inl, inr, append_assoc, take-append-drop, length-drop, length-take,
  length-keep-le, ◌⊎◌,
}
use guangyue_panel.Support.{Ticket}
use guangyue_panel.Support.Page.{
  PageCall, below, listed, batch, Scan, start_scan, scan, Page, page_round, page_loop,
  support_ticket_page, ticket_matches_search,
}
use guangyue_panel.Prelude.Text.{TextOrder, trim_space}
use guangyue_panel.Support.Sorted.{
  last_id, Descending, keep-Descending, keep-append, keep-keep, rest_after,
}
use guangyue_panel.Support.Scans.{take-all, Scanned, scan-Scanned, page_of, more-page, last-page}

page_round-more :
    (s : Scan) (again : Option Page)
    → s.has_more ≡ true
    → page_round s again ≡ some (record { items = s.out; next = s.page_cursor; more = true })
unfolding page_round
page_round-more s again h = rw h

page_round-last :
    (s : Scan) (again : Option Page)
    → s.has_more ≡ false
    → s.consumed < 100
    → page_round s again
      ≡ some (record {
        items = s.out;
        next = if ltb (length s.out) 50 then "" else s.page_cursor;
        more = false;
      })
unfolding page_round
page_round-last s again h short = ground (arith, h, short)

page_round-again :
    (s : Scan) (again : Option Page)
    → s.has_more ≡ false
    → s.consumed ≡ 100
    → s.last_cursor ≢ ""
    → page_round s again ≡ again
unfolding page_round
page_round-again s again h full named =
    ground (arith, h, full, string_eq.beq_iff s.last_cursor "", named)

short-or-not : (n : ℕ) → (n < 100) ⊎ (100 ≤ n)
short-or-not n = elim (Bool-cases (ltb n 100)) [
  | inl h ↦ inl (ltb→lt n 100 h)
  | inr h ↦ inr (ground (arith, h))
]

not-more : (n : ℕ) → false ≡ ltb 50 n → n ≤ 50
not-more n h = ground (arith, h)

-- One round: what is left of the rows is asked for again.
module _ (m : Ticket → Bool) (rows out : List Ticket) (s : Scan) (again : Option Page)
    (sc : Scanned m (take 100 rows) (start_scan out (last_id "" out)) s) where
  first : List Ticket
  first = keep m (take 100 rows)

  split : out ++ keep m rows ≡ out ++ (keep m (take 100 rows) ++ keep m (drop 100 rows))
  split =
      ap (λ r. out ++ r)
        (ap (keep m) (sym (take-append-drop 100 rows))
          ∙ keep-append m (take 100 rows) (drop 100 rows))

  round-more : s.has_more ≡ true → page_round s again ≡ some (page_of (out ++ keep m rows))
  round-more h =
      let full =
        more-page out (keep m (take 100 rows)) (keep m (drop 100 rows)) (sym h ∙ sc.more) in
      page_round-more s again h
      ∙ sym (ap (λ x. some (page_of x)) split ∙ ap some full ∙ rw (sc.next, sc.items))

  collected : s.has_more ≡ false → (s.out ≡ out ++ keep m (take 100 rows)) × (length s.out ≤ 50)
  collected h =
      let small = not-more (length (out ++ keep m (take 100 rows))) (sym h ∙ sc.more) in
      let e = sc.items ∙ take-all 50 (out ++ keep m (take 100 rows)) small in
      (e, subst (λ x. length x ≤ 50) (sym e) small)

  round-last :
      s.has_more ≡ false
      → length rows < 100
      → page_round s again ≡ some (page_of (out ++ keep m rows))
  round-last h short =
      let whole = take-all 100 rows (omega arith) in
      let c = collected h in
      let e : s.out ≡ out ++ keep m rows = c.0 ∙ ap (λ x. out ++ keep m x) whole in
      let last = last-page out (keep m rows) (subst (λ x. length x ≤ 50) e c.1) in
      page_round-last s again h (omega (arith, sc.count h, ap length whole))
      ∙ rw (sc.next, e) (ap some (sym last))

  round-again :
      s.has_more ≡ false
      → 100 ≤ length rows
      → last_id "" (take 100 rows) ≢ ""
      → again ≡ some (page_of (s.out ++ keep m (drop 100 rows)))
      → page_round s again ≡ some (page_of (out ++ keep m rows))
  round-again h long named rest =
      let id : s.last_cursor ≢ "" = λ e. named (sym (sc.last h) ∙ e) in
      page_round-again s again h (omega (arith, sc.count h, length-take 100 rows)) id
      ∙ rest
      ∙ ap (λ x. some (page_of x))
          (ap (λ x. x ++ keep m (drop 100 rows)) (collected h).0
            ∙ append_assoc out (keep m (take 100 rows)) (keep m (drop 100 rows))
            ∙ sym split)

-- The loop over batches, from any cursor and with any number of tickets already found.
module _ (order : TextOrder) (m : Ticket → Bool) (all : List Ticket) (sorted : Descending order all)
    (query : String → List Ticket)
    (asked : (c : String) → query c ≡ take 100 (keep (below order c) all)) where
  pub page_loop-page :
      (fuel : ℕ) (cursor : String) (out : List Ticket)
      → length out ≤ 50
      → length (keep (below order cursor) all) < fuel
      → page_loop fuel m query cursor out (last_id "" out)
        ≡ some (page_of (out ++ keep m (keep (below order cursor) all)))
  unfolding page_loop
  page_loop-page zero cursor out room enough = absurd (omega (arith, enough))
  page_loop-page (suc fuel) cursor out room enough =
      let rows = keep (below order cursor) all in
      let start = start_scan out (last_id "" out) in
      let s = scan m (take 100 rows) start in
      let again = page_loop fuel m query s.last_cursor s.out s.page_cursor in
      let sc =
        scan-Scanned m (take 100 rows) start
          (record { unfinished = refl; room = room; cursor = refl }) in
      rw (asked cursor) (elim (Bool-cases s.has_more) [
        | inl h ↦ round-more m rows out s again sc h
        | inr h ↦ elim (short-or-not (length rows)) [
          | inl short ↦ round-last m rows out s again sc h short
          | inr long ↦
              let rest = rest_after order cursor all rows 99 sorted refl (omega (arith, long)) in
              let left : length (drop 100 rows) < fuel =
                omega (arith, length-drop 100 rows, enough, long) in
              let gone : keep (below order s.last_cursor) all ≡ drop 100 rows =
                ap (λ x. keep (below order x) all) (sc.last h) ∙ rest.1 in
              let ih =
                page_loop-page fuel s.last_cursor s.out (collected m rows out s again sc h).1
                  (subst (λ x. length x < fuel) (sym gone) left) in
              round-again m rows out s again sc h long rest.0 (
                ap (λ x. page_loop fuel m query s.last_cursor s.out x) sc.next
                ∙ ih
                ∙ ap (λ x. some (page_of (s.out ++ keep m x))) gone)
        ]
      ])

abbrev pub matches : PageCall → Ticket → Bool
matches c = ticket_matches_search c.lower (trim_space c.search)

-- The tickets that the call is about: below the cursor, of the actor, in the states, matching.
abbrev pub asked_for : PageCall → String → List Ticket → List Ticket
asked_for c cursor rows = keep (matches c) (keep (below c.order cursor) (keep (listed c) rows))

batch-take :
    (c : PageCall) (rows : List Ticket) (cursor : String)
    → batch c cursor rows ≡ take 100 (keep (below c.order cursor) (keep (listed c) rows))
unfolding batch
batch-take c rows cursor = ap (take 100) (sym (keep-keep (below c.order cursor) (listed c) rows))

-- On rows in the order of the query, with one more round than there are rows, the loop ends, and
-- the page is the first fifty tickets that the reader may see, that are in the states asked for,
-- that stand below the cursor and that match the search, with the sign whether there are more.
pub support_ticket_page_lem :
    (c : PageCall) (before : String) (rows : List Ticket) (fuel : ℕ)
    → Descending c.order rows
    → length rows < fuel
    → support_ticket_page fuel c before rows ≡ some (page_of (asked_for c (trim_space before) rows))
unfolding support_ticket_page
support_ticket_page_lem c before rows fuel sorted enough =
    let listed' = keep (listed c) rows in
    page_loop-page c.order (matches c) listed' (keep-Descending c.order (listed c) rows sorted)
      (λ cursor. batch c cursor rows) (batch-take c rows) fuel (trim_space before) [] (omega arith)
      (omega (
        arith,
        enough,
        length-keep-le (listed c) rows,
        length-keep-le (below c.order (trim_space before)) listed',
      ))
