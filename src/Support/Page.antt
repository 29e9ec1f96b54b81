-- ===== src/Support/Page.antt =====
-- Pages of tickets: `ticketStateFilter`, `ticketSearchText`, `ticketMatchesSearch` and
-- `supportTicketPage` of controlplane/support_ticket_state.go. The rows are given in the order of
-- `ORDER BY id DESC`; the order of the database on texts is a parameter.
use guangyue_panel.Prelude.{
  ℕ, zero, suc, ◌+◌, String, Bool, true, false, not, ◌&&◌, ◌||◌, Option, none, some, List, [], ◌∷◌,
  ◌++◌, if◌then◌else◌, ltb, leb, ◌==◌, nat_eq, string_eq, append, keep, take, length,
}
use guangyue_panel.Prelude.Text.{TextOrder, Lower, trim_space, to_lower, contains, decimal}
use guangyue_panel.Domain.Account.{User}
use guangyue_panel.Support.{
  TicketState, opened, processing, waiting_user, resolved, closed, same_ticket_state, Ticket,
}
use guangyue_panel.Support.Steps.{is_owner}

-- No states stand for all of them; `none` is a filter that is refused.
unfoldable pub ticket_state_filter : Lower → String → Option (List TicketState)
unfolding trim_space to_lower
ticket_state_filter lower raw =
    let text = trim_space (to_lower lower raw) in
    if text == "" || text == "all"
    then some []
    else if text == "active"
    then some (opened ∷ processing ∷ [])
    else if text == "done"
    then some (resolved ∷ closed ∷ [])
    else if text == "open"
    then some (opened ∷ [])
    else if text == "processing"
    then some (processing ∷ [])
    else if text == "waiting_user"
    then some (waiting_user ∷ [])
    else if text == "resolved"
    then some (resolved ∷ [])
    else if text == "closed"
    then some (closed ∷ [])
    else none

unfoldable pub ticket_search_text : Lower → Ticket → String
unfolding to_lower decimal
ticket_search_text lower t = to_lower lower (
    append t.title (
      append " " (
        append t.id (
          append " " (
            append t.order_id (append " " (append t.resource (append " " (decimal t.user_id)))))))))

unfoldable pub ticket_matches_search : Lower → String → Ticket → Bool
unfolding ticket_search_text trim_space to_lower contains
ticket_matches_search lower query t =
    let text = trim_space (to_lower lower query) in
    text == "" || contains text (ticket_search_text lower t)

-- A call of `supportTicketPage`.
pub record PageCall : Type 0 where
  pub actor : User
  pub states : List TicketState
  pub search : String
  pub lower : Lower
  pub order : TextOrder

abbrev pub has_state : TicketState → List TicketState → Bool
has_state s [] = false
has_state s (x ∷ xs) = same_ticket_state x s || has_state s xs

-- The conditions of the query.
abbrev pub below : TextOrder → String → Ticket → Bool
below order cursor t = cursor == "" || order.less t.id cursor

abbrev pub no_states : List TicketState → Bool
no_states [] = true
no_states (s ∷ ss) = false

unfoldable pub listed : PageCall → Ticket → Bool
listed c t =
    (is_owner c.actor || t.user_id == c.actor.id)
    && (no_states c.states || has_state t.state c.states)

-- One batch of `ORDER BY id DESC LIMIT 100`.
unfoldable pub batch : PageCall → String → List Ticket → List Ticket
batch c cursor rows = take 100 (keep (λ t. below c.order cursor t && listed c t) rows)

-- The variables that the loop over a batch writes.
pub record Scan : Type 0 where
  pub out : List Ticket
  pub page_cursor : String
  pub consumed : ℕ
  pub last_cursor : String
  pub has_more : Bool

abbrev pub passed : Ticket → Scan → Scan
passed t s = record s { consumed = s.consumed + 1; last_cursor = t.id }

abbrev pub found : Ticket → Scan → Scan
found t s = record s {
  out = s.out ++ t ∷ [];
  page_cursor = t.id;
  consumed = s.consumed + 1;
  last_cursor = t.id;
}

-- The loop over the rows of a batch; a matching row past a full page ends it.
unfoldable pub scan : (Ticket → Bool) → List Ticket → Scan → Scan
scan matches [] s = s
scan matches (t ∷ ts) s =
    let skip = scan matches ts (passed t s) in
    let add = scan matches ts (found t s) in
    if not (matches t)
    then skip
    else if ltb (length s.out) 50
    then add
    else record s { consumed = s.consumed + 1; last_cursor = t.id; has_more = true }

pub record Page : Type 0 where
  pub items : List Ticket
  pub next : String
  pub more : Bool

abbrev pub start_scan : List Ticket → String → Scan
start_scan out page_cursor = record {
  out = out;
  page_cursor = page_cursor;
  consumed = 0;
  last_cursor = "";
  has_more = false;
}

-- What follows a batch; `again` is the loop from where the batch has ended.
unfoldable pub page_round : Scan → Option Page → Option Page
page_round s again =
    if s.has_more
    then some (record { items = s.out; next = s.page_cursor; more = true })
    else if leb 50 (length s.out)
    then (if ltb s.consumed 100
        then some (record { items = s.out; next = s.page_cursor; more = false })
        else again)
    else if ltb s.consumed 100 || s.last_cursor == ""
    then some (record { items = s.out; next = ""; more = false })
    else again

-- The loop over batches; `none` means that the fuel ran out.
unfoldable pub page_loop :
    ℕ → (Ticket → Bool) → (String → List Ticket) → String → List Ticket → String → Option Page
unfolding scan page_round
page_loop zero matches query cursor out page_cursor = none
page_loop (suc fuel) matches query cursor out page_cursor =
    let s = scan matches (query cursor) (start_scan out page_cursor) in
    let again = page_loop fuel matches query s.last_cursor s.out s.page_cursor in page_round s again

unfoldable pub support_ticket_page : ℕ → PageCall → String → List Ticket → Option Page
unfolding page_loop batch ticket_matches_search trim_space
support_ticket_page fuel c before rows =
    page_loop fuel (ticket_matches_search c.lower (trim_space c.search))
      (λ cursor. batch c cursor rows) (trim_space before) [] ""
