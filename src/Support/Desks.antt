-- ===== src/Support/Desks.antt =====
-- The tables of tickets under any sequence of the handlers of controlplane/support.go.
use guangyue_panel.Prelude.{
  ℕ, ◌+◌, ◌≤◌, ◌<◌, ◌≡◌, ◌∙◌, refl, sym, subst, nat_beq_iff, true, false, not, ◌&&◌, ◌||◌, some,
  ltb, ◌==◌, nat_eq, string_eq, ltb→lt, lookup, arith, Bool-cases, inl, inr, sum_rows-insert,
  sum_rows-insert_new, ok,
}
use guangyue_panel.Support.{Ticket, Desk, open_tickets, is_open_of, ticket_state_is_closed}
use guangyue_panel.Support.Steps.{
  TicketCall, NewTicket, NewReply, TicketChange, is_owner, new_ticket, replied, changed,
  change_checks, within_limits,
}
use guangyue_panel.Support.Outcomes.{
  Created, create_ticket-ok, Replied, reply_ticket-ok, Changed, change_ticket-ok,
}
use guangyue_panel.Support.Tidy.{
  IsTidy, IsCall, KeepsShut, Step, Reaches, change_checks-limit, binds-within, write-IsTidy, Few,
  replied-unclosed, same_open, changed-stamped, and_parts, not-true, or_right, one_at_most, no_more,
  customer_reopens, creating, replying, changing, here, next,
}

-- The change adds an open ticket only for a customer who has room for it.
change-few :
    (user : ℕ) (c : TicketCall) (r : TicketChange) (old : Ticket) (d : Desk) {after : ℕ}
    → IsCall user c
    → (is_owner c.actor ≡ true
        → ticket_state_is_closed old.state ≡ true
        → ticket_state_is_closed r.state ≡ true)
    → (is_owner c.actor || old.user_id == c.actor.id) ≡ true
    → change_checks c r old d ≡ ok tt
    → ticket_state_is_closed old.state ≡ ltb 0 old.closed_at
    → open_tickets user d.tickets ≤ 5
    → after + is_open_of user old ≡ open_tickets user d.tickets + is_open_of user (changed c r old)
    → after ≤ 5
unfolding changed
change-few user c r old d call keeps mine checked stamped few sum =
    elim (Bool-cases (
      not (ticket_state_is_closed r.state)
      && ticket_state_is_closed old.state
      && old.user_id == user)) [
        | inl reopened ↦
            let t =
              and_parts (not (ticket_state_is_closed r.state)) (ticket_state_is_closed old.state)
                (old.user_id == user) reopened in
            let unclosed = not-true (ticket_state_is_closed r.state) t.0 in
            let customer = customer_reopens (is_owner c.actor) r old keeps t.1 unclosed in
            let me =
              (nat_beq_iff old.user_id c.actor.id).0
                (or_right (is_owner c.actor) (old.user_id == c.actor.id) customer mine) in
            let yours = (nat_beq_iff old.user_id user).0 t.2 in
            let room =
              change_checks-limit c r old d checked customer unclosed
                (ltb→lt 0 old.closed_at (sym stamped ∙ t.1)) in
            let here = subst (λ x. open_tickets x d.tickets < 5) (sym me ∙ yours) room in
            omega
              (arith, here, sum, one_at_most (old.user_id == user) (ticket_state_is_closed r.state))
        | inr other ↦ omega (
          arith,
          few,
          sum,
          no_more (ticket_state_is_closed r.state) (ticket_state_is_closed old.state)
              (old.user_id == user) other,
        )
      ]

-- A new ticket of a customer is within the limit; another's is not counted.
create-keeps :
    (user : ℕ) (c : TicketCall) (n : NewTicket) (d d' : Desk) (t : Ticket)
    → IsCall user c
    → Created c n d t d'
    → IsTidy d
    → Few user d
    → IsTidy d' × Few user d'
unfolding Few open_tickets within_limits new_ticket
create-keeps user c n d d' t call made tidy few =
    let new = new_ticket c n made.resource in
    subst (λ x. IsTidy x × Few user x) (sym made.desk)
      (
        write-IsTidy c.ticket_id new made.replies made.images d tidy (call.named, refl, refl)
            (binds-within n.attachments c.actor.id c.now c.ticket_id c.reply_id false d.images
              made.images made.bound call.named tidy.within),
        ground (
          arith,
          sum_rows-insert_new (is_open_of user) c.ticket_id new d.tickets made.fresh,
          made.limits,
          call.customer,
          nat_beq_iff c.actor.id user,
        ),
      )

-- A reply leaves a ticket open that is open.
reply-keeps :
    (user : ℕ) (c : TicketCall) (n : NewReply) (d d' : Desk) (t : Ticket)
    → Replied c n d t d'
    → IsTidy d
    → Few user d
    → IsTidy d' × Few user d'
unfolding Few open_tickets replied
reply-keeps user c n d d' t made tidy few =
    let old = made.old in
    let row = tidy.rows n.id old made.there in
    let new = replied c n old in
    let unclosed = replied-unclosed c n old made.unclosed in
    subst (λ x. IsTidy x × Few user x) (sym made.desk)
      (
        write-IsTidy old.id new made.replies made.images d tidy
            (rw row.1 row.0, refl, unclosed ∙ sym made.unclosed ∙ row.2)
            (binds-within n.attachments c.actor.id c.now old.id c.reply_id n.internal d.images
              made.images made.bound (rw row.1 row.0) tidy.within),
        omega (
          arith,
          sum_rows-insert (is_open_of user) old.id new old d.tickets
              (subst (λ x. lookup x d.tickets ≡ some old) (sym row.1) made.there),
          few,
          same_open user new old refl (unclosed ∙ sym made.unclosed),
        ),
      )

change-keeps :
    (user : ℕ) (c : TicketCall) (r : TicketChange) (d d' : Desk) (t : Ticket)
    → IsCall user c
    → (is_owner c.actor ≡ true → KeepsShut r d)
    → Changed c r d t d'
    → IsTidy d
    → Few user d
    → IsTidy d' × Few user d'
unfolding Few open_tickets changed
change-keeps user c r d d' t call keeps made tidy few =
    let old = made.old in
    let row = tidy.rows r.id old made.there in
    let new = changed c r old in
    subst (λ x. IsTidy x × Few user x) (sym made.desk)
      (
        write-IsTidy old.id new d.replies d.images d tidy
            (rw row.1 row.0, refl, changed-stamped c r old call.running) tidy.within,
        change-few user c r old d call (λ o. keeps o old made.there) made.mine made.checked row.2
            few
            (sum_rows-insert (is_open_of user) old.id new old d.tickets
              (subst (λ x. lookup x d.tickets ≡ some old) (sym row.1) made.there)),
      )

Step-keeps :
    {user : ℕ} {d d' : Desk} → Step user d d' → IsTidy d → Few user d → IsTidy d' × Few user d'
Step-keeps {user} {d} {d'} (creating c n t call h) tidy few =
    create-keeps user c n d d' t call (create_ticket-ok c n d t d' h) tidy few
Step-keeps {user} {d} {d'} (replying c n t call h) tidy few =
    reply-keeps user c n d d' t (reply_ticket-ok c n d t d' h) tidy few
Step-keeps {user} {d} {d'} (changing c r t call keeps h) tidy few =
    elim (change_ticket-ok c r d t d' h) [
      | inl same ↦ subst (λ x. IsTidy x × Few user x) (sym same) (tidy, few)
      | inr made ↦ change-keeps user c r d d' t call keeps made tidy few
    ]

-- Whatever tickets are created, answered and changed, in whatever order, by calls with a running
-- clock, with names that are not empty, and with no owner's role for the customer, where an owner
-- opens no closed ticket again: if at first rows stood under their own names, carried a closing
-- time exactly when closed, the images of each ticket were within 20 MB, and the customer had at
-- most five open tickets, then so it is afterwards.
pub Reaches-IsTidy :
    {user : ℕ} {d d' : Desk}
    → Reaches user d d'
    → IsTidy d
    → open_tickets user d.tickets ≤ 5
    → IsTidy d' × (open_tickets user d'.tickets ≤ 5)
unfolding Few
Reaches-IsTidy here tidy few = (tidy, few)
Reaches-IsTidy (next r st) tidy few = let k = Reaches-IsTidy r tidy few in Step-keeps st k.0 k.1
