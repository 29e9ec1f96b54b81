-- ===== src/Support/Outcomes.antt =====
-- What a call of a ticket handler has tested and written when it has gone through.
use guangyue_panel.Prelude.{
  ◌≡◌, ◌⊎◌, refl, String, true, false, not, ◌&&◌, ◌||◌, Option, none, some, Map, ltb, ◌==◌, nat_eq,
  string_eq, lookup, insert, is_some, arith, Bool-cases, inl, inr, if_true, if_false, List, ◌∷◌,
  tickets_off, bad_ticket, forbidden, unique_violation, bad_reply, ticket_closed, reply_limit,
  ticket_limit, bad_priority, ok, or_fail, >>=-eq-ok, guard-eq-ok, then-eq-ok, ok-pair, ap, ◌∙◌,
  not_found, conflict,
}
use guangyue_panel.Domain.Account.{User}
use guangyue_panel.Support.{
  recent_replies, Ticket, TicketReply, TicketImage, Desk, ticket_state_is_closed,
  bind_ticket_images,
}
use guangyue_panel.Support.Steps.{
  TicketCall, good_ticket, good_reply, NewTicket, NewReply, TicketChange, is_owner, new_ticket,
  create_ticket, visible_ticket, save_ticket, replied, write_reply, reply_ticket, changed,
  change_checks, save_change, change_ticket, within_limits, new_reply, may_name_order, unchanged,
}

not_some {ℓ} : {A : Type ℓ} (o : Option A) → not (is_some o) ≡ true → o ≡ none
not_some none h = refl
not_some (some a) h = cc

-- A row of the table that an actor may see.
pub visible_ticket-ok :
    (id : String) (actor : User) (d : Desk) (t : Ticket)
    → visible_ticket id actor d ≡ ok t
    → (lookup id d.tickets ≡ some t) × ((is_owner actor || t.user_id == actor.id) ≡ true)
unfolding visible_ticket
visible_ticket-ok id actor d t h = ground (arith, h)

-- What a guarded write has done.
pub save_ticket-ok :
    (t : Ticket) (previous : String) (d d' : Desk)
    → save_ticket t previous d ≡ ok d'
    → (old : Ticket) × (lookup t.id d.tickets ≡ some old)
      × (old.revision ≡ previous)
      × (d' ≡ record d { tickets = insert t.id t d.tickets })
unfolding save_ticket
save_ticket-ok t previous d d' h =
    let p = >>=-eq-ok (or_fail (lookup t.id d.tickets) not_found) _ h in
    let g = guard-eq-ok (p.0.revision == previous) conflict _ p.2 in
    (p.0, ground (arith, p.1), (string_eq.beq_iff p.0.revision previous).0 g.0, ground (arith, g.1))

pub record Created (c : TicketCall) (n : NewTicket) (d : Desk) (t : Ticket) (d' : Desk)
    : Type 0 where
  pub resource : String
  pub images : Map String TicketImage
  pub replies : List TicketReply
  pub limits : within_limits c d ≡ true
  pub fresh : lookup c.ticket_id d.tickets ≡ none
  pub bound :
      bind_ticket_images n.attachments c.actor.id c.now c.ticket_id c.reply_id false d.images
      ≡ ok images
  pub ticket : t ≡ new_ticket c n resource
  pub desk : d' ≡ record {
    tickets = insert c.ticket_id (new_ticket c n resource) d.tickets;
    replies = replies;
    images = images;
  }

pub create_ticket-ok :
    (c : TicketCall) (n : NewTicket) (d : Desk) (t : Ticket) (d' : Desk)
    → create_ticket c n d ≡ ok (t, d')
    → Created c n d t d'
unfolding create_ticket
create_ticket-ok c n d t d' h =
    let a = guard-eq-ok c.enabled tickets_off _ h in
    let b = guard-eq-ok (good_ticket n) bad_ticket _ a.1 in
    let o = guard-eq-ok (may_name_order c n.order_id) forbidden _ b.1 in
    let r = >>=-eq-ok (c.resource_of n.site_id n.node_id) _ o.1 in
    let l = guard-eq-ok (within_limits c d) ticket_limit _ r.2 in
    let f = guard-eq-ok (not (is_some (lookup c.ticket_id d.tickets))) unique_violation _ l.1 in
    let i =
      >>=-eq-ok
        (bind_ticket_images n.attachments c.actor.id c.now c.ticket_id c.reply_id false d.images) _
        f.1 in
    record {
      resource = r.0;
      images = i.0;
      replies = new_reply c c.ticket_id n.body false n.attachments ∷ d.replies;
      limits = l.0;
      fresh = not_some (lookup c.ticket_id d.tickets) f.0;
      bound = i.1;
      ticket = (ok-pair i.2).0;
      desk = (ok-pair i.2).1;
    }

pub record Replied (c : TicketCall) (n : NewReply) (d : Desk) (t : Ticket) (d' : Desk)
    : Type 0 where
  pub old : Ticket
  pub images : Map String TicketImage
  pub replies : List TicketReply
  pub there : lookup n.id d.tickets ≡ some old
  pub unclosed : ticket_state_is_closed old.state ≡ false
  pub bound :
      bind_ticket_images n.attachments c.actor.id c.now old.id c.reply_id n.internal d.images
      ≡ ok images
  pub ticket : t ≡ replied c n old
  pub desk : d' ≡ record {
    tickets = insert old.id (replied c n old) d.tickets;
    replies = replies;
    images = images;
  }

write_reply-ok :
    (c : TicketCall) (n : NewReply) (old : Ticket) (d : Desk) (t : Ticket) (d' : Desk)
    → write_reply c n old d ≡ ok (t, d')
    → lookup n.id d.tickets ≡ some old
    → Replied c n d t d'
unfolding write_reply
write_reply-ok c n old d t d' h there =
    let r = guard-eq-ok (not (n.revision == "") && n.revision == old.revision) conflict _ h in
    let u = guard-eq-ok (not (ticket_state_is_closed old.state)) ticket_closed _ r.1 in
    let l =
      guard-eq-ok (is_owner c.actor || ltb (recent_replies c.actor.id c.now d.replies) 20)
        reply_limit _ u.1 in
    let i =
      >>=-eq-ok
        (bind_ticket_images n.attachments c.actor.id c.now old.id c.reply_id n.internal d.images) _
        l.1 in
    let w = >>=-eq-ok (save_ticket (replied c n old) old.revision d) _ i.2 in
    let saved = save_ticket-ok (replied c n old) old.revision d w.0 w.1 in
    let written = λ (x : Desk). record x {
      replies = new_reply c old.id n.body n.internal n.attachments ∷ x.replies;
      images = i.0;
    } in
    record {
      old = old;
      images = i.0;
      replies = new_reply c old.id n.body n.internal n.attachments ∷ d.replies;
      there = there;
      unclosed = ground (arith, u.0);
      bound = i.1;
      ticket = (ok-pair w.2).0;
      desk = (ok-pair w.2).1 ∙ ap written saved.3;
    }

pub reply_ticket-ok :
    (c : TicketCall) (n : NewReply) (d : Desk) (t : Ticket) (d' : Desk)
    → reply_ticket c n d ≡ ok (t, d')
    → Replied c n d t d'
unfolding reply_ticket
reply_ticket-ok c n d t d' h =
    let a = guard-eq-ok c.enabled tickets_off _ h in
    let b = guard-eq-ok (good_reply c n) bad_reply _ a.1 in
    let v = >>=-eq-ok (visible_ticket n.id c.actor d) _ b.1 in
    write_reply-ok c n v.0 d t d' v.2 (visible_ticket-ok n.id c.actor d v.0 v.1).0

-- A change that has written, and the row that it has read.
pub record Changed (c : TicketCall) (r : TicketChange) (d : Desk) (t : Ticket) (d' : Desk)
    : Type 0 where
  pub old : Ticket
  pub there : lookup r.id d.tickets ≡ some old
  pub mine : (is_owner c.actor || old.user_id == c.actor.id) ≡ true
  pub checked : change_checks c r old d ≡ ok tt
  pub ticket : t ≡ changed c r old
  pub desk : d' ≡ record d { tickets = insert old.id (changed c r old) d.tickets }

pub change_ticket-ok :
    (c : TicketCall) (r : TicketChange) (d : Desk) (t : Ticket) (d' : Desk)
    → change_ticket c r d ≡ ok (t, d')
    → (d' ≡ d) ⊎ Changed c r d t d'
unfolding change_ticket
change_ticket-ok c r d t d' h =
    let v = >>=-eq-ok (visible_ticket r.id c.actor d) _ h in
    let seen = visible_ticket-ok r.id c.actor d v.0 v.1 in
    let g = guard-eq-ok (v.0.revision == r.revision) conflict _ v.2 in
    elim (Bool-cases (unchanged r v.0)) [
      | inl same ↦ inl (ok-pair (if_true (ok (v.0, d)) (save_change c r v.0 d) same g.1)).1
      | inr other ↦
          let k = if_false (ok (v.0, d)) (save_change c r v.0 d) other g.1 in
          let q = then-eq-ok (change_checks c r v.0 d) _ k in
          let p =
            guard-eq-ok (r.priority == "" || r.priority == "normal" || r.priority == "urgent")
              bad_priority _ q.1 in
          let w = >>=-eq-ok (save_ticket (changed c r v.0) r.revision d) _ p.1 in
          let saved = save_ticket-ok (changed c r v.0) r.revision d w.0 w.1 in
          inr record {
            old = v.0;
            there = seen.0;
            mine = seen.1;
            checked = q.0;
            ticket = cc w.2;
            desk = ground (arith, w.2, saved.3);
          }
    ]
