-- ===== src/Support/Scans.antt =====
-- One batch of `supportTicketPage` (controlplane/support_ticket_state.go).
use guangyue_panel.Prelude.{
  ℕ, zero, suc, ◌+◌, ◌≤◌, ◌<◌, ◌≡◌, ◌∙◌, refl, sym, ap, Bool, true, false, List, [], ◌∷◌, ◌++◌,
  if◌then◌else◌, ltb, nat_eq, string_eq, ltb→lt, lt→ltb, tests, arith, keep, take, drop, length,
  Bool-cases, inl, inr, append_assoc, append-nil, length-append,
}
use guangyue_panel.Support.{Ticket}
use guangyue_panel.Support.Page.{Scan, passed, found, scan, Page}
use guangyue_panel.Support.Sorted.{last_id, last_id-append}

take-short {ℓ} : {A : Type ℓ} (n : ℕ) (xs ys : List A) → length xs ≡ n → take n (xs ++ ys) ≡ xs
take-short zero [] ys h = refl
take-short zero (x ∷ xs) ys h = absurd (omega (arith, h))
take-short (suc n) [] ys h = absurd (omega (arith, h))
take-short (suc n) (x ∷ xs) ys h = ap (λ r. x ∷ r) (take-short n xs ys (omega (arith, h)))

pub take-all {ℓ} : {A : Type ℓ} (n : ℕ) (xs : List A) → length xs ≤ n → take n xs ≡ xs
take-all zero [] h = refl
take-all zero (x ∷ xs) h = absurd (omega (arith, h))
take-all (suc n) [] h = refl
take-all (suc n) (x ∷ xs) h = ap (λ r. x ∷ r) (take-all n xs (omega (arith, h)))

drop-all {ℓ} : {A : Type ℓ} (n : ℕ) (xs : List A) → length xs ≤ n → drop n xs ≡ []
drop-all zero [] h = refl
drop-all zero (x ∷ xs) h = absurd (omega (arith, h))
drop-all (suc n) [] h = refl
drop-all (suc n) (x ∷ xs) h = drop-all n xs (omega (arith, h))

-- What the loop over some rows has made of the variables.
pub record Scanned (m : Ticket → Bool) (ts : List Ticket) (s r : Scan) : Type 0 where
  pub items : r.out ≡ take 50 (s.out ++ keep m ts)
  pub more : r.has_more ≡ ltb 50 (length (s.out ++ keep m ts))
  pub next : r.page_cursor ≡ last_id "" r.out
  pub count : r.has_more ≡ false → r.consumed ≡ s.consumed + length ts
  pub last : r.has_more ≡ false → r.last_cursor ≡ last_id s.last_cursor ts

pub record Ready (s : Scan) : Type 0 where
  pub unfinished : s.has_more ≡ false
  pub room : length s.out ≤ 50
  pub cursor : s.page_cursor ≡ last_id "" s.out

keep-hit {ℓ} :
    {A : Type ℓ} (m : A → Bool) (t : A) (ts : List A) → m t ≡ true → keep m (t ∷ ts) ≡ t ∷ keep m ts
keep-hit m t ts h = rw h

keep-miss {ℓ} :
    {A : Type ℓ} (m : A → Bool) (t : A) (ts : List A) → m t ≡ false → keep m (t ∷ ts) ≡ keep m ts
keep-miss m t ts h = rw h

-- The result over fewer rows is the result over all of them, if the same tickets are found.
Scanned-cons :
    (m : Ticket → Bool) (t : Ticket) (ts : List Ticket) (s s' r : Scan)
    → s'.out ++ keep m ts ≡ s.out ++ keep m (t ∷ ts)
    → s'.consumed ≡ s.consumed + 1
    → s'.last_cursor ≡ t.id
    → Scanned m ts s' r
    → Scanned m (t ∷ ts) s r
Scanned-cons m t ts s s' r same one id sc = record {
  items = sc.items ∙ ap (take 50) same;
  more = sc.more ∙ ap (λ x. ltb 50 (length x)) same;
  next = sc.next;
  count = λ h. omega (arith, sc.count h, one);
  last = λ h. sc.last h ∙ ap (λ x. last_id x ts) id;
}

full-more : (n : ℕ) → 50 < n → true ≡ ltb 50 n
full-more n h = ground (arith, h)

at_fifty : (n : ℕ) → ltb n 50 ≡ false → n ≤ 50 → n ≡ 50
at_fifty n h k = ground (arith, h, k)

-- A matching row past a full page.
scan-full :
    (m : Ticket → Bool) (t : Ticket) (ts : List Ticket) (s : Scan)
    → m t ≡ true
    → ltb (length s.out) 50 ≡ false
    → Ready s
    → Scanned m
        (t ∷ ts)
        s
        (record s { consumed = s.consumed + 1; last_cursor = t.id; has_more = true })
scan-full m t ts s hit full ready =
    let fifty = at_fifty (length s.out) full ready.room in
    record {
      items = sym (take-short 50 s.out (keep m (t ∷ ts)) fifty);
      more = full-more (length (s.out ++ keep m (t ∷ ts))) (
          omega
            (arith, length-append s.out (keep m (t ∷ ts)), ap length (keep-hit m t ts hit), fifty));
      next = ready.cursor;
      count = λ h. cc h;
      last = λ h. cc h;
    }

pub scan-Scanned :
    (m : Ticket → Bool) (ts : List Ticket) (s : Scan) → Ready s → Scanned m ts s (scan m ts s)
unfolding scan
scan-Scanned m [] s ready = record {
  items = sym (ap (take 50) (append-nil s.out) ∙ take-all 50 s.out ready.room);
  more = ready.unfinished ∙ ground (arith, ready.room, ap length (append-nil s.out));
  next = ready.cursor;
  count = λ h. omega arith;
  last = λ h. refl;
}
scan-Scanned m (t ∷ ts) s ready = elim (Bool-cases (m t)) [
  | inl hit ↦ elim (Bool-cases (ltb (length s.out) 50)) [
    | inl room ↦
        let grown = length-append s.out (t ∷ []) in
        let ready' : Ready (found t s) = record {
          unfinished = ready.unfinished;
          room = omega (arith, grown, ltb→lt (length s.out) 50 room);
          cursor = sym (last_id-append "" s.out (t ∷ []));
        } in
        let same =
          append_assoc s.out (t ∷ []) (keep m ts)
          ∙ sym (ap (λ r. s.out ++ r) (keep-hit m t ts hit)) in
        let all =
          Scanned-cons m t ts s (found t s) (scan m ts (found t s)) same refl refl
            (scan-Scanned m ts (found t s) ready') in
        rw (hit, room) all
    | inr full ↦ let all = scan-full m t ts s hit full ready in rw (hit, full) all
  ]
  | inr miss ↦
      let ready' : Ready (passed t s) = record {
        unfinished = ready.unfinished;
        room = ready.room;
        cursor = ready.cursor;
      } in
      let same = sym (ap (λ r. s.out ++ r) (keep-miss m t ts miss)) in
      let all =
        Scanned-cons m t ts s (passed t s) (scan m ts (passed t s)) same refl refl
          (scan-Scanned m ts (passed t s) ready') in
      rw miss all
]

-- The page of the tickets found: the first fifty, the cursor of a full page, and whether there are
-- more.
abbrev pub page_of : List Ticket → Page
page_of tickets = record {
  items = take 50 tickets;
  next = if ltb (length tickets) 50 then "" else last_id "" (take 50 tickets);
  more = ltb 50 (length tickets);
}

take-append {ℓ} :
    {A : Type ℓ} (n : ℕ) (xs ys : List A) → ltb n (length xs) ≡ true → take n (xs ++ ys) ≡ take n xs
take-append zero xs ys h = refl
take-append (suc n) [] ys h = absurd (omega (tests, ltb→lt (suc n) 0 h))
take-append (suc n) (x ∷ xs) ys h =
    ap (λ r. x ∷ r) (take-append n xs ys (lt→ltb n (length xs) (omega (tests, h))))

fuller : (n m : ℕ) → true ≡ ltb 50 n → n ≤ m → (ltb 50 m ≡ true) × (ltb m 50 ≡ false)
fuller n m h k = (ground (arith, h, k), ground (arith, h, k))

-- A page that a batch has more for is the page of all that match.
pub more-page :
    (out xs ys : List Ticket)
    → true ≡ ltb 50 (length (out ++ xs))
    → page_of (out ++ (xs ++ ys))
      ≡ record { items = take 50 (out ++ xs); next = last_id "" (take 50 (out ++ xs)); more = true }
more-page out xs ys h =
    let assoc = append_assoc out xs ys in
    let f =
      fuller (length (out ++ xs)) (length (out ++ (xs ++ ys))) h
        (omega (arith, length-append (out ++ xs) ys, ap length assoc)) in
    let first : take 50 (out ++ (xs ++ ys)) ≡ take 50 (out ++ xs) =
      ap (take 50) (sym assoc) ∙ take-append 50 (out ++ xs) ys (sym h) in
    rw (f.0, f.1, first)

pub last-page :
    (out xs : List Ticket)
    → length (out ++ xs) ≤ 50
    → page_of (out ++ xs) ≡ record {
      items = out ++ xs;
      next = if ltb (length (out ++ xs)) 50 then "" else last_id "" (out ++ xs);
      more = false;
    }
last-page out xs h =
    let whole = take-all 50 (out ++ xs) h in
    let full : ltb 50 (length (out ++ xs)) ≡ false = ground (arith, h) in rw (whole, full)
