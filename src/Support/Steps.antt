-- ===== src/Support/Steps.antt =====
-- The handlers `createTicket`, `replyTicket` and `changeTicket` of controlplane/support.go. Each runs
-- as one transaction; `id`, `reply_id` and `revision` of a call are fresh.
use guangyue_panel.Prelude.{
  ℕ, ◌+◌, String, Bool, false, not, ◌&&◌, ◌||◌, none, some, List, Map, ◌∷◌, if◌then◌else◌, ltb, leb,
  ◌==◌, nat_eq, string_eq, lookup, insert, is_some, Result, ok, ◌>>=◌, ◌>>◌, guard, or_fail,
  tickets_off, bad_ticket, ticket_limit, bad_reply, ticket_closed, reply_limit, new_ticket_needed,
  bad_state, bad_priority, not_found, conflict, forbidden, unique_violation,
}
use guangyue_panel.Domain.Account.{User}
use guangyue_panel.Commerce.{Order}
use guangyue_panel.Support.{
  TicketState, opened, processing, closed, same_ticket_state, ticket_states, ticket_state_is_closed,
  ticket_reply_state, ticket_create_state, Ticket, TicketReply, Desk, valid_text, open_tickets,
  recent_tickets, recent_replies, bind_ticket_images,
}

-- What a handler is called with: `enabled` is the setting of tickets, `orders` the table of orders,
-- `resource_of` is `ticketResource` on the nodes that the actor may name.
pub record TicketCall : Type 0 where
  pub actor : User
  pub now : ℕ
  pub enabled : Bool
  pub orders : Map String Order
  pub resource_of : String → String → Result String
  pub ticket_id : String
  pub reply_id : String
  pub new_revision : String

pub record NewTicket : Type 0 where
  pub title : String
  pub category : String
  pub body : String
  pub order_id : String
  pub site_id : String
  pub node_id : String
  pub attachments : List String

pub record NewReply : Type 0 where
  pub id : String
  pub revision : String
  pub body : String
  pub internal : Bool
  pub attachments : List String

pub record TicketChange : Type 0 where
  pub id : String
  pub state : TicketState
  pub priority : String
  pub revision : String

abbrev pub is_owner : User → Bool
is_owner u = u.role == "owner"

abbrev pub known_category : String → Bool
known_category c = c == "account" || c == "order" || c == "node" || c == "usage" || c == "other"

abbrev pub good_ticket : NewTicket → Bool
good_ticket n = valid_text n.title 120 && valid_text n.body 4000 && known_category n.category

-- Only the owner writes notes.
abbrev pub good_reply : TicketCall → NewReply → Bool
good_reply c n = valid_text n.body 4000 && not (n.internal && not (is_owner c.actor))

-- An order may be named by its buyer and by the owner.
unfoldable pub may_name_order : TicketCall → String → Bool
may_name_order c order = order == "" || (elim (lookup order c.orders) [
  | none ↦ false
  | some o ↦ is_owner c.actor || o.user_id == c.actor.id
])

unfoldable pub new_ticket : TicketCall → NewTicket → String → Ticket
new_ticket c n resource = record {
  id = c.ticket_id;
  user_id = c.actor.id;
  title = n.title;
  category = n.category;
  state = ticket_create_state c.actor.role;
  priority = "normal";
  order_id = n.order_id;
  site_id = n.site_id;
  node_id = n.node_id;
  resource = resource;
  created = c.now;
  updated = c.now;
  closed_at = 0;
  revision = c.new_revision;
}

abbrev pub new_reply : TicketCall → String → String → Bool → List String → TicketReply
new_reply c ticket body internal attachments = record {
  id = c.reply_id;
  ticket_id = ticket;
  user_id = c.actor.id;
  sender = c.actor.username;
  body = body;
  internal = internal;
  attachments = attachments;
  created = c.now;
}

unfoldable pub within_limits : TicketCall → Desk → Bool
within_limits c d =
    is_owner c.actor
    || (ltb (open_tickets c.actor.id d.tickets) 5
        && ltb (recent_tickets c.actor.id c.now d.tickets) 10)

unfoldable pub create_ticket : TicketCall → NewTicket → Desk → Result (Ticket × Desk)
unfolding new_ticket within_limits may_name_order
create_ticket c n d = do
  guard c.enabled tickets_off
  guard (good_ticket n) bad_ticket
  guard (may_name_order c n.order_id) forbidden
  resource ← c.resource_of n.site_id n.node_id
  guard (within_limits c d) ticket_limit
  guard (not (is_some (lookup c.ticket_id d.tickets))) unique_violation
  images ← bind_ticket_images n.attachments c.actor.id c.now c.ticket_id c.reply_id false d.images
  ok (
    new_ticket c n resource,
    record d {
      tickets = insert c.ticket_id (new_ticket c n resource) d.tickets;
      replies = new_reply c c.ticket_id n.body false n.attachments ∷ d.replies;
      images = images;
    },
  )

-- A ticket of someone else is not found.
unfoldable pub visible_ticket : String → User → Desk → Result Ticket
visible_ticket id actor d = do
  t ← or_fail (lookup id d.tickets) not_found
  guard (is_owner actor || t.user_id == actor.id) not_found
  ok t

-- The row is written only over the revision that the handler has read.
unfoldable pub save_ticket : Ticket → String → Desk → Result Desk
save_ticket t previous d = do
  old ← or_fail (lookup t.id d.tickets) not_found
  guard (old.revision == previous) conflict
  ok (record d { tickets = insert t.id t d.tickets })

unfoldable pub replied : TicketCall → NewReply → Ticket → Ticket
replied c n t = record t {
  updated = c.now;
  revision = c.new_revision;
  state = ticket_reply_state c.actor.role t.state n.internal;
}

-- What `replyTicket` does with the ticket that it has read.
unfoldable pub write_reply : TicketCall → NewReply → Ticket → Desk → Result (Ticket × Desk)
unfolding replied
write_reply c n t d = do
  guard (not (n.revision == "") && n.revision == t.revision) conflict
  guard (not (ticket_state_is_closed t.state)) ticket_closed
  guard (is_owner c.actor || ltb (recent_replies c.actor.id c.now d.replies) 20) reply_limit
  images ← bind_ticket_images n.attachments c.actor.id c.now t.id c.reply_id n.internal d.images
  d' ← save_ticket (replied c n t) t.revision d
  ok (
    replied c n t,
    record d' {
      replies = new_reply c t.id n.body n.internal n.attachments ∷ d'.replies;
      images = images;
    },
  )

unfoldable pub reply_ticket : TicketCall → NewReply → Desk → Result (Ticket × Desk)
unfolding write_reply
reply_ticket c n d = do
  guard c.enabled tickets_off
  guard (good_reply c n) bad_reply
  t ← visible_ticket n.id c.actor d
  write_reply c n t d

abbrev pub reopens : TicketState → Bool
reopens s = same_ticket_state s opened || same_ticket_state s processing

-- A ticket that has been closed is opened again within a week, and within the limit.
abbrev pub room_to_reopen : TicketCall → TicketChange → Ticket → Desk → Bool
room_to_reopen c r t d =
    not (reopens r.state && ltb 0 t.closed_at) || ltb (open_tickets c.actor.id d.tickets) 5

abbrev pub allowed_change : TicketChange → Ticket → Bool
allowed_change r t =
    (same_ticket_state r.state closed || reopens r.state)
    && (r.priority == "" || r.priority == t.priority)

abbrev pub in_time : TicketCall → TicketChange → Ticket → Bool
in_time c r t =
    not (reopens r.state) || (not (t.closed_at == 0) && leb c.now (t.closed_at + 604800))

-- What a customer may ask for, and what the owner may.
unfoldable pub change_checks : TicketCall → TicketChange → Ticket → Desk → Result (Unit {0})
change_checks c r t d = if is_owner c.actor then guard (ticket_states r.state) bad_state else do
  guard (room_to_reopen c r t d) ticket_limit
  guard (allowed_change r t) forbidden
  guard (in_time c r t) new_ticket_needed

unfoldable pub changed : TicketCall → TicketChange → Ticket → Ticket
changed c r t = record t {
  priority = if r.priority == "" then t.priority else r.priority;
  state = r.state;
  closed_at =
      if ticket_state_is_closed r.state then if t.closed_at == 0 then c.now else t.closed_at else 0;
  updated = c.now;
  revision = c.new_revision;
}

unfoldable pub save_change : TicketCall → TicketChange → Ticket → Desk → Result (Ticket × Desk)
unfolding change_checks changed
save_change c r t d = do
  change_checks c r t d
  guard (r.priority == "" || r.priority == "normal" || r.priority == "urgent") bad_priority
  d' ← save_ticket (changed c r t) r.revision d
  ok (changed c r t, d')

abbrev pub unchanged : TicketChange → Ticket → Bool
unchanged r t = same_ticket_state r.state t.state && (r.priority == "" || r.priority == t.priority)

-- A request that asks for what is there changes nothing.
unfoldable pub change_ticket : TicketCall → TicketChange → Desk → Result (Ticket × Desk)
unfolding save_change
change_ticket c r d = do
  t ← visible_ticket r.id c.actor d
  guard (t.revision == r.revision) conflict
  if unchanged r t then ok (t, d) else save_change c r t d
