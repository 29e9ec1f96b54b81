-- ===== src/Tests/Tickets.antt =====
-- A ticket with an image that is opened, closed and listed.
use guangyue_panel.Prelude.{
  ◌≤◌, ◌≡◌, ◌<◌, refl, String, true, false, some, List, Map, [], ◌∷◌, ok, lookup, insert, length,
  nat_eq, string_eq, arith,
}
use guangyue_panel.Prelude.Text.{trim_space, trim_left, trim_right, rune_count}
use guangyue_panel.Support.{
  processing, closed, Ticket, TicketReply, TicketImage, Desk, valid_text, open_tickets, image_bytes,
  bind_images, bind_ticket_images,
}
use guangyue_panel.Support.Steps.{
  TicketCall, NewTicket, TicketChange, new_ticket, create_ticket, change_ticket, save_change,
  changed, change_checks, save_ticket, visible_ticket, within_limits, may_name_order,
}
use guangyue_panel.Support.Images.{Binds, bind_ticket_images-Binds}
use guangyue_panel.Support.Desks.{Reaches-IsTidy}
use guangyue_panel.Support.Tidy.{IsTidy, creating, changing, here, next}
use guangyue_panel.Support.Page.{PageCall, support_ticket_page, listed, ticket_matches_search}
use guangyue_panel.Support.Sorted.{Descending}
use guangyue_panel.Support.Pages.{asked_for, support_ticket_page_lem}
use guangyue_panel.Support.Scans.{page_of}
use guangyue_panel.Support.Walk.{Trimmed, walk, walk-all}
use guangyue_panel.Tests.Sample.{buyer, by_length}

abbrev image : TicketImage
image = record {
  user_id = 7;
  ticket_id = "";
  reply_id = "";
  internal = false;
  size = 1000;
  expires = 900;
}

abbrev images : Map String TicketImage
images = ("i1", image) ∷ []

abbrev bound : Map String TicketImage
bound = ("i1", record image { ticket_id = "t1"; reply_id = "r1"; expires = 0 }) ∷ []

binding : bind_ticket_images ("i1" ∷ []) 7 100 "t1" "r1" false images ≡ ok bound
unfolding bind_ticket_images bind_images image_bytes lookup insert
binding = refl

bind_ticket_images-Binds_example : Binds ("i1" ∷ []) 7 100 "t1" "r1" false images bound
bind_ticket_images-Binds_example =
    bind_ticket_images-Binds ("i1" ∷ []) 7 100 "t1" "r1" false images bound binding cc

abbrev call : TicketCall
call = record {
  actor = buyer;
  now = 100;
  enabled = true;
  orders = [];
  resource_of = λ site node. ok "";
  ticket_id = "t1";
  reply_id = "r1";
  new_revision = "v1";
}

abbrev request : NewTicket
request = record {
  title = "no traffic";
  category = "node";
  body = "nothing is loaded";
  order_id = "";
  site_id = "";
  node_id = "";
  attachments = "i1" ∷ [];
}

abbrev ticket : Ticket
ticket = record {
  id = "t1";
  user_id = 7;
  title = "no traffic";
  category = "node";
  state = processing;
  priority = "normal";
  order_id = "";
  site_id = "";
  node_id = "";
  resource = "";
  created = 100;
  updated = 100;
  closed_at = 0;
  revision = "v1";
}

abbrev empty_desk : Desk
empty_desk = record { tickets = []; replies = []; images = images }

abbrev reply : TicketReply
reply = record {
  id = "r1";
  ticket_id = "t1";
  user_id = 7;
  sender = "buyer";
  body = "nothing is loaded";
  internal = false;
  attachments = "i1" ∷ [];
  created = 100;
}

abbrev open_desk : Desk
open_desk = record { tickets = ("t1", ticket) ∷ []; replies = reply ∷ []; images = bound }

creation : create_ticket call request empty_desk ≡ ok (ticket, open_desk)
unfolding create_ticket new_ticket within_limits may_name_order valid_text trim_space trim_left
    trim_right rune_count bind_ticket_images bind_images image_bytes open_tickets lookup insert
creation = refl

abbrev later_call : TicketCall
later_call = record call { now = 200; new_revision = "v2" }

abbrev change : TicketChange
change = record { id = "t1"; state = closed; priority = ""; revision = "v1" }

abbrev closed_ticket : Ticket
closed_ticket = record ticket { state = closed; updated = 200; closed_at = 200; revision = "v2" }

abbrev closed_desk : Desk
closed_desk = record open_desk { tickets = ("t1", closed_ticket) ∷ [] }

closing : change_ticket later_call change open_desk ≡ ok (closed_ticket, closed_desk)
unfolding change_ticket save_change change_checks changed save_ticket visible_ticket open_tickets
    lookup insert
closing = refl

empty-IsTidy : IsTidy empty_desk
unfolding lookup image_bytes
empty-IsTidy = record { rows = λ k t h. cc h; within = λ t named. ground arith }

few : open_tickets 7 empty_desk.tickets ≤ 5
unfolding open_tickets
few = omega arith

Reaches-IsTidy_example : IsTidy closed_desk × (open_tickets 7 closed_desk.tickets ≤ 5)
Reaches-IsTidy_example =
    Reaches-IsTidy {user = 7} {d = empty_desk} {d' = closed_desk}
      (next
        (next here (
          creating call request ticket
            (record { running = omega arith; named = cc; customer = λ e. refl }) creation))
        (changing later_call change closed_ticket
          (record { running = omega arith; named = cc; customer = λ e. refl })
          (λ owner'. λ old e h. refl) closing))
      empty-IsTidy few

abbrev page_call : PageCall
page_call = record { actor = buyer; states = []; search = ""; lower = λ c. c; order = by_length }

abbrev rows : List Ticket
rows = record ticket { id = "t10" } ∷ ticket ∷ []

rows-Descending : Descending by_length rows
unfolding rune_count
rows-Descending = (cc, (refl, tt), (cc, tt, tt))

rows-Trimmed : Trimmed rows
unfolding trim_space trim_left trim_right
rows-Trimmed = (refl, (refl, tt))

support_ticket_page_lem_example :
    support_ticket_page 5 page_call "" rows
    ≡ some (page_of (asked_for page_call (trim_space "") rows))
support_ticket_page_lem_example =
    support_ticket_page_lem page_call "" rows 5 rows-Descending (omega arith)

asked-few : length (asked_for page_call (trim_space "") rows) < 5
unfolding listed trim_space ticket_matches_search
asked-few = omega arith

walk-all_example : walk 5 page_call rows "" ≡ some (asked_for page_call (trim_space "") rows)
walk-all_example = walk-all page_call rows "" 5 rows-Descending rows-Trimmed asked-few
