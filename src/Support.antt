-- ===== src/Support.antt =====
-- Support tickets: `createTicket`, `replyTicket`, `changeTicket`, `saveTicket` and
-- `bindTicketImages` of controlplane/support.go, with controlplane/support_ticket_state.go. A request
-- has been decoded; notifications and the replay of operations are left out.
pub mod Steps
pub mod Images
pub mod Outcomes
pub mod Tidy
pub mod Desks
pub mod Page
pub mod Sorted
pub mod Scans
pub mod Pages
pub mod Walk
use guangyue_panel.Prelude.{
  ℕ, ◌+◌, ◌-◌, String, Bool, true, false, not, ◌&&◌, ◌||◌, Option, none, some, List, Map, [], ◌∷◌,
  ◌++◌, if◌then◌else◌, ltb, leb, ◌==◌, nat_eq, string_eq, lookup, insert, is_some, sum_of, sum_rows,
  length, Result, ok, err, ◌>>=◌, ◌>>◌, guard, or_fail, tickets_off, bad_ticket, ticket_limit,
  bad_reply, ticket_closed, reply_limit, new_ticket_needed, bad_state, bad_priority,
  too_many_images, image_twice, image_missing, image_capacity, not_found, conflict, forbidden,
  unique_violation,
}
use guangyue_panel.Prelude.Text.{trim_space, rune_count}
use guangyue_panel.Domain.Account.{User}
use guangyue_panel.Commerce.{Order}

-- The state of a ticket; `unknown` is any text that is no state.
pub data TicketState : Type 0 where
  opened processing waiting_user resolved closed unknown : TicketState

abbrev pub same_ticket_state : TicketState → TicketState → Bool
same_ticket_state opened opened = true
same_ticket_state processing processing = true
same_ticket_state waiting_user waiting_user = true
same_ticket_state resolved resolved = true
same_ticket_state closed closed = true
same_ticket_state unknown unknown = true
same_ticket_state _ _ = false

abbrev pub ticket_states : TicketState → Bool
ticket_states s = not (same_ticket_state s unknown)

abbrev pub ticket_state_is_closed : TicketState → Bool
ticket_state_is_closed s = same_ticket_state s resolved || same_ticket_state s closed

abbrev pub ticket_reply_state : String → TicketState → Bool → TicketState
ticket_reply_state role current internal =
    if internal then current else if role == "owner" then waiting_user else processing

abbrev pub ticket_create_state : String → TicketState
ticket_create_state role = processing

pub record Ticket : Type 0 where
  pub id : String
  pub user_id : ℕ
  pub title : String
  pub category : String
  pub state : TicketState
  pub priority : String
  pub order_id : String
  pub site_id : String
  pub node_id : String
  pub resource : String
  pub created : ℕ
  pub updated : ℕ
  pub closed_at : ℕ
  pub revision : String

pub record TicketReply : Type 0 where
  pub id : String
  pub ticket_id : String
  pub user_id : ℕ
  pub sender : String
  pub body : String
  pub internal : Bool
  pub attachments : List String
  pub created : ℕ

-- A row of support_attachments: `ticket_id` is empty until the image is bound.
pub record TicketImage : Type 0 where
  pub user_id : ℕ
  pub ticket_id : String
  pub reply_id : String
  pub internal : Bool
  pub size : ℕ
  pub expires : ℕ

-- The tables of the component.
pub record Desk : Type 0 where
  pub tickets : Map String Ticket
  pub replies : List TicketReply
  pub images : Map String TicketImage

unfoldable pub valid_text : String → ℕ → Bool
unfolding trim_space rune_count
valid_text s limit = not (trim_space s == "") && leb (rune_count s) limit

-- The rows that `SELECT COUNT(*)` counts.
abbrev pub is_open_of : ℕ → Ticket → ℕ
is_open_of user t = if t.user_id == user && not (ticket_state_is_closed t.state) then 1 else 0

unfoldable pub open_tickets : ℕ → Map String Ticket → ℕ
open_tickets user tickets = sum_rows (is_open_of user) tickets

abbrev pub recent_tickets : ℕ → ℕ → Map String Ticket → ℕ
recent_tickets user now tickets =
    sum_of (λ row. if row.1.user_id == user && ltb now (row.1.created + 86400) then 1 else 0)
      tickets

abbrev pub recent_replies : ℕ → ℕ → List TicketReply → ℕ
recent_replies user now replies =
    sum_of (λ r. if r.user_id == user && ltb now (r.created + 3600) then 1 else 0) replies

abbrev pub bytes_of : String → TicketImage → ℕ
bytes_of ticket image = if image.ticket_id == ticket then image.size else 0

unfoldable pub image_bytes : String → Map String TicketImage → ℕ
image_bytes ticket images =
    sum_of (λ row. if row.1.ticket_id == ticket then row.1.size else 0) images

abbrev pub free_image : ℕ → ℕ → TicketImage → Bool
free_image actor now image =
    image.user_id == actor && image.ticket_id == "" && ltb now image.expires

abbrev pub contains_text : String → List String → Bool
contains_text id [] = false
contains_text id (x ∷ xs) = x == id || contains_text id xs

abbrev pub bound_image : String → String → Bool → TicketImage → TicketImage
bound_image ticket reply internal image = record image {
  ticket_id = ticket;
  reply_id = reply;
  internal = internal;
  expires = 0;
}

-- The loop of `bindTicketImages`: `total` was counted before it, `added` and `seen` are its own.
unfoldable pub bind_images :
    String
    → String
    → Bool
    → ℕ
    → ℕ
    → ℕ
    → ℕ
    → List String
    → List String
    → Map String TicketImage
    → Result (Map String TicketImage)
bind_images ticket reply internal actor now total added seen [] images = ok images
bind_images ticket reply internal actor now total added seen (id ∷ ids) images = do
  guard (not (contains_text id seen)) image_twice
  image ← or_fail (lookup id images) image_missing
  guard (free_image actor now image) image_missing
  guard (leb (added + image.size) 6291456 && leb (total + (added + image.size)) 20971520)
      image_capacity
  bind_images ticket reply internal actor now total (added + image.size) (id ∷ seen) ids
      (insert id (bound_image ticket reply internal image) images)

unfoldable pub bind_ticket_images :
    List String
    → ℕ
    → ℕ
    → String
    → String
    → Bool
    → Map String TicketImage
    → Result (Map String TicketImage)
unfolding bind_images
bind_ticket_images ids actor now ticket reply internal images = do
  guard (leb (length ids) 3) too_many_images
  bind_images ticket reply internal actor now (image_bytes ticket images) 0 [] ids images
