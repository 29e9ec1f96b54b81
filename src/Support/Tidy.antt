-- ===== src/Support/Tidy.antt =====
-- Tidy tables of tickets, and what the checks of `changeTicket` (controlplane/support.go) leave.
use guangyue_panel.Prelude.{
  ℕ, ◌≤◌, ◌<◌, ◌≡◌, ◌≢◌, refl, sym, String, subst, List, Bool, true, false, not, ◌&&◌, ◌||◌, some,
  Map, if◌then◌else◌, if_false, ltb, ◌==◌, nat_eq, string_eq, lookup, insert, arith, Bool-cases,
  inl, inr, rows-insert, ok, guard, guard-eq-ok, ticket_limit, forbidden, bad_state,
}
use guangyue_panel.Support.{
  TicketState, opened, processing, waiting_user, resolved, closed, unknown, Ticket, Desk,
  open_tickets, is_open_of, ticket_state_is_closed, same_ticket_state, ticket_states, image_bytes,
  TicketReply, TicketImage, bind_ticket_images,
}
use guangyue_panel.Support.Steps.{
  TicketCall, NewTicket, NewReply, TicketChange, is_owner, create_ticket, replied, reply_ticket,
  changed, change_checks, change_ticket, reopens, room_to_reopen, allowed_change,
}
use guangyue_panel.Support.Images.{bind_ticket_images-Binds}

-- A row stands under its own name, and carries a time of closing exactly when it is closed.
abbrev pub IsRow : String → Ticket → Type 0
IsRow k t = (k ≢ "") × (t.id ≡ k) × (ticket_state_is_closed t.state ≡ ltb 0 t.closed_at)

pub record IsTidy (d : Desk) : Type 0 where
  pub rows : (k : String) (t : Ticket) → lookup k d.tickets ≡ some t → IsRow k t
  pub within : (ticket : String) → ticket ≢ "" → image_bytes ticket d.images ≤ 20971520

-- Who calls: the clock runs, names are not empty, and a customer is not an owner.
pub record IsCall (user : ℕ) (c : TicketCall) : Type 0 where
  pub running : 0 < c.now
  pub named : c.ticket_id ≢ ""
  pub customer : c.actor.id ≡ user → is_owner c.actor ≡ false

-- The owner opens no closed ticket again.
abbrev pub KeepsShut : TicketChange → Desk → Type 0
KeepsShut r d =
    (old : Ticket)
    → lookup r.id d.tickets ≡ some old
    → ticket_state_is_closed old.state ≡ true
    → ticket_state_is_closed r.state ≡ true

pub data Step (user : ℕ) : Desk → Desk → Type 0 where
  creating :
      {d d' : Desk} (c : TicketCall) (n : NewTicket) (t : Ticket)
      → IsCall user c
      → create_ticket c n d ≡ ok (t, d')
      → Step user d d'
  replying :
      {d d' : Desk} (c : TicketCall) (n : NewReply) (t : Ticket)
      → IsCall user c
      → reply_ticket c n d ≡ ok (t, d')
      → Step user d d'
  changing :
      {d d' : Desk} (c : TicketCall) (r : TicketChange) (t : Ticket)
      → IsCall user c
      → (is_owner c.actor ≡ true → KeepsShut r d)
      → change_ticket c r d ≡ ok (t, d')
      → Step user d d'

pub data Reaches (user : ℕ) (d : Desk) : Desk → Type 0 where
  here : Reaches user d d
  next : {e f : Desk} → Reaches user d e → Step user e f → Reaches user d f

is_open_or_not :
    (s : TicketState)
    → (same_ticket_state s closed || reopens s) ≡ true
    → ticket_state_is_closed s ≡ false
    → reopens s ≡ true
is_open_or_not opened h k = refl
is_open_or_not processing h k = refl
is_open_or_not waiting_user h k = cc
is_open_or_not resolved h k = cc
is_open_or_not closed h k = cc
is_open_or_not unknown h k = cc

-- A customer who opens a closed ticket again has room for it.
pub change_checks-limit :
    (c : TicketCall) (r : TicketChange) (t : Ticket) (d : Desk)
    → change_checks c r t d ≡ ok tt
    → is_owner c.actor ≡ false
    → ticket_state_is_closed r.state ≡ false
    → 0 < t.closed_at
    → open_tickets c.actor.id d.tickets < 5
unfolding change_checks
change_checks-limit c r t d h customer unclosed shut =
    let k = if_false (guard (ticket_states r.state) bad_state) _ customer h in
    let a = guard-eq-ok (room_to_reopen c r t d) ticket_limit _ k in
    let b = guard-eq-ok (allowed_change r t) forbidden _ a.1 in
    let opens = is_open_or_not r.state (ground (arith, b.0)) unclosed in ground (arith, a.0, opens)

pub binds-within :
    (ids : List String) (actor now : ℕ) (ticket reply : String) (internal : Bool)
    (images images' : Map String TicketImage)
    → bind_ticket_images ids actor now ticket reply internal images ≡ ok images'
    → ticket ≢ ""
    → ((other : String) → other ≢ "" → image_bytes other images ≤ 20971520)
    → (other : String) → other ≢ ""
    → image_bytes other images' ≤ 20971520
binds-within ids actor now ticket reply internal images images' h named within other known =
    let b = bind_ticket_images-Binds ids actor now ticket reply internal images images' h named in
    let apart = λ (e : other == ticket ≡ false) (p : other ≡ ticket).
      let z : ⊥ = ground (arith, e, p, string_eq.beq_iff other ticket) in z in
    elim (Bool-cases (other == ticket)) [
      | inl same ↦
          let e = (string_eq.beq_iff other ticket).0 same in
          subst (λ x. image_bytes x images' ≤ 20971520) (sym e) (b.within (within ticket named))
      | inr away ↦
          subst (λ x. x ≤ 20971520) (sym (b.elsewhere other known (apart away)))
            (within other known)
    ]

-- A row that is written keeps the tables tidy.
pub write-IsTidy :
    (k : String) (t : Ticket) (replies : List TicketReply) (images : Map String TicketImage)
    (d : Desk)
    → IsTidy d
    → IsRow k t
    → ((other : String) → other ≢ "" → image_bytes other images ≤ 20971520)
    → IsTidy (record { tickets = insert k t d.tickets; replies = replies; images = images })
write-IsTidy k t replies images d tidy row within = record {
  rows = rows-insert IsRow k t d.tickets row tidy.rows;
  within = within;
}

unfoldable pub Few : ℕ → Desk → Type 0
Few user d = open_tickets user d.tickets ≤ 5

pub replied-unclosed :
    (c : TicketCall) (n : NewReply) (old : Ticket)
    → ticket_state_is_closed old.state ≡ false
    → ticket_state_is_closed (replied c n old).state ≡ false
unfolding replied
replied-unclosed c n old h = ground (arith, h)

pub same_open :
    (user : ℕ) (new old : Ticket)
    → new.user_id ≡ old.user_id
    → ticket_state_is_closed new.state ≡ ticket_state_is_closed old.state
    → is_open_of user new ≡ is_open_of user old
same_open user new old owner state = rw (owner, state)

pub changed-stamped :
    (c : TicketCall) (r : TicketChange) (old : Ticket)
    → 0 < c.now
    → ticket_state_is_closed (changed c r old).state ≡ ltb 0 (changed c r old).closed_at
unfolding changed
changed-stamped c r old running = elim (Bool-cases (ticket_state_is_closed r.state)) [
  | inl shut ↦ rw shut (ground arith)
  | inr unclosed ↦ rw unclosed
]

pub and_parts : (a b c : Bool) → (a && b && c) ≡ true → (a ≡ true) × (b ≡ true) × (c ≡ true)
and_parts a b c h = ground arith

pub not-true : (b : Bool) → not b ≡ true → b ≡ false
not-true b h = ground arith

pub or_right : (a b : Bool) → a ≡ false → (a || b) ≡ true → b ≡ true
or_right a b h k = ground arith

pub one_at_most : (mine shut : Bool) → (if mine && not shut then 1 else 0) ≤ 1
one_at_most mine shut = ground arith

pub no_more :
    (new old mine : Bool)
    → (not new && old && mine) ≡ false
    → (if mine && not new then 1 else 0) ≤ (if mine && not old then 1 else 0)
no_more new old mine h = ground arith

pub customer_reopens :
    (owner : Bool) (r : TicketChange) (old : Ticket)
    → (owner ≡ true
        → ticket_state_is_closed old.state ≡ true
        → ticket_state_is_closed r.state ≡ true)
    → ticket_state_is_closed old.state ≡ true
    → ticket_state_is_closed r.state ≡ false
    → owner ≡ false
customer_reopens true r old keeps shut unclosed = cc (keeps refl shut)
customer_reopens false r old keeps shut unclosed = refl
