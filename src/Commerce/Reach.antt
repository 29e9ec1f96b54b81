-- ===== src/Commerce/Reach.antt =====
-- The shop as a transition system: the handlers of orders, callbacks of payment providers, their
-- reconciliations and finished refunds by providers, in any order, on any orders, with any answers of the installation. Each runs as
-- one step.
use guangyue_panel.Prelude.{
  List, ℕ, ◌≡◌, ◌∙◌, String, true, some, string_eq, nat_eq, lookup, ok, pos, ◌⊎◌,
}
use guangyue_panel.Wallet.{Ledger, Movement}
use guangyue_panel.Commerce.{Order, refunded, Shop, PaymentReceipt}
use guangyue_panel.Commerce.Settle.{Books, charge, charge-Books}
use guangyue_panel.Commerce.Create.{is_open, create_order, create-Books, create-Lives}
use guangyue_panel.Commerce.Confirm.{Request, confirm_order}
use guangyue_panel.Commerce.Confirm.Proofs.{confirm-Books}
use guangyue_panel.Commerce.Cancel.{cancel_order}
use guangyue_panel.Commerce.Cancel.Proofs.{cancel-Books}
use guangyue_panel.Commerce.Review.{
  Review, request_refund, cancel_refund, reject_refund, refund_action,
}
use guangyue_panel.Commerce.Review.Quiet.{review_moves_nothing}
use guangyue_panel.Commerce.Review.Proofs.{refund-Books, refund-Writes}
use guangyue_panel.Commerce.Fulfil.Proofs.{IsCollector}
use guangyue_panel.Commerce.Work.{Worker, work_order}
use guangyue_panel.Commerce.Work.Proofs.{work_order-Books, work_order-Lives}
use guangyue_panel.Commerce.Moves.{
  Life, here, final_stays, is_final, Lives, Writes-Lives, Lives-trans,
}
use guangyue_panel.Payments.{Callback, VerifiedEvent, PaymentEvent, Till, record_payment_event}
use guangyue_panel.Payments.Reconcile.{Office, reconcile_payment_receipt}
use guangyue_panel.Payments.Quiet.{record_payment_event-IsQuiet, IsQuiet-Books, IsQuiet-Writes}
use guangyue_panel.Payments.Books.{reconcile-Books, reconcile-Writes}
use guangyue_panel.Payments.Refunds.{finish_payment_refund, finish_payment_refund-IsQuiet}
use guangyue_panel.Commerce.Moves.Handlers.{confirm-Writes, cancel-Writes}

-- The tables of a callback.
abbrev pub till : Shop → List PaymentEvent → Till
till s events = record { shop = s; events = events }

-- `credits` is any other movement of money that freezes nothing, such as a redeemed code or an
-- adjustment by an owner.
pub data Step : Shop → Shop → Type 0 where
  creates :
      {s s' : Shop} (r : Request) (offer : String) (version : ℕ)
      → create_order r offer version s ≡ ok s'
      → Step s s'
  confirms : {s s' : Shop} (r : Request) → confirm_order r s ≡ ok s' → Step s s'
  cancels : {s s' : Shop} (r : Request) → cancel_order r s ≡ ok s' → Step s s'
  reviews :
      {s s' : Shop} (v : Review)
      → (request_refund v s ≡ ok s') ⊎ ((cancel_refund v s ≡ ok s') ⊎ (reject_refund v s ≡ ok s'))
      → Step s s'
  refunds : {s s' : Shop} (v : Review) → refund_action v s ≡ ok s' → Step s s'
  works :
      {s : Shop} (w : Worker) (o : Order)
      → IsCollector w.server.collect
      → lookup o.id s.orders ≡ some o
      → is_open o.state ≡ true
      → Step s (work_order w o s)
  credits :
      {s : Shop} (m : Movement) (l : Ledger)
      → m.held_delta ≡ pos 0
      → charge (some m) s.ledger ≡ ok l
      → Step s (record s { ledger = l })
  receives :
      {s s' : Shop} (c : Callback) (e : VerifiedEvent) (events events' : List PaymentEvent)
      → record_payment_event c e (till s events) ≡ ok (till s' events')
      → Step s s'
  reconciles :
      {s s' : Shop} (f : Office) (id : String)
      → reconcile_payment_receipt f id s ≡ ok s'
      → Step s s'
  finishes : {s s' : Shop} (r : PaymentReceipt) → finish_payment_refund r s ≡ ok s' → Step s s'

pub data Reaches : Shop → Shop → Type 0 where
  done : {s : Shop} → Reaches s s
  step : {s t s' : Shop} → Step s t → Reaches t s' → Reaches s s'

step-keeps : (s s' : Shop) → Step s s' → Books s → Books s'
step-keeps s s' (creates r offer version h) b = create-Books r offer version s s' h b
step-keeps s s' (confirms r h) b = confirm-Books r s s' h b
step-keeps s s' (cancels r h) b = cancel-Books r s s' h b
step-keeps s s' (reviews v h) b = (review_moves_nothing v s s' b h).0
step-keeps s s' (refunds v h) b = refund-Books v s s' h b
step-keeps s _ (works w o c there waiting) b = work_order-Books w o s c there waiting b
step-keeps s _ (credits m l free h) b = charge-Books m s l free h b
step-keeps s s' (receives c e events events' h) b =
    IsQuiet-Books s s' (record_payment_event-IsQuiet c e (till s events) (till s' events') h) b
step-keeps s s' (reconciles f id h) b = reconcile-Books f id s s' h b
step-keeps s s' (finishes r h) b = IsQuiet-Books s s' (finish_payment_refund-IsQuiet r s s' h) b

-- Whatever order handlers, rounds of the worker, callbacks of payments, reconciliations, finished
-- refunds of providers and credits have run, in whatever order, on a shop whose books were right:
-- its books are right, so each user's held balance is the price of the balance orders that are
-- being provisioned, the ledger is sound, and rows stand under their own identifiers. The worker's
-- collection of traffic is to leave accounts under their own identifiers.
pub reaches-Books : (s s' : Shop) → Reaches s s' → Books s → Books s'
reaches-Books s _ done b = b
reaches-Books s s' (step {t = t} h r) b = reaches-Books t s' r (step-keeps s t h b)

Step-Lives : (s s' : Shop) → Step s s' → Books s → Lives s s'
Step-Lives s s' (creates r offer version h) b = create-Lives r offer version s s' h
Step-Lives s s' (confirms r h) b = Writes-Lives s s' (confirm-Writes r s s' h)
Step-Lives s s' (cancels r h) b = Writes-Lives s s' (cancel-Writes r s s' h)
Step-Lives s s' (reviews v h) b =
    λ id o there. (o, (review_moves_nothing v s s' b h).2 id ∙ there, here)
Step-Lives s s' (refunds v h) b = Writes-Lives s s' (refund-Writes v s s' h)
Step-Lives s _ (works w o c there waiting) b = work_order-Lives w o s waiting
Step-Lives s _ (credits m l free h) b = λ id o there. (o, there, here)
Step-Lives s s' (receives c e events events' h) b =
    Writes-Lives s s'
      (IsQuiet-Writes s s' (record_payment_event-IsQuiet c e (till s events) (till s' events') h))
Step-Lives s s' (reconciles f id h) b = Writes-Lives s s' (reconcile-Writes f id s s' h)
Step-Lives s s' (finishes r h) b =
    Writes-Lives s s' (IsQuiet-Writes s s' (finish_payment_refund-IsQuiet r s s' h))

Reaches-Lives : (s s' : Shop) → Reaches s s' → Books s → Lives s s'
Reaches-Lives s _ done b = λ id o there. (o, there, here)
Reaches-Lives s s' (step {t = t} h r) b =
    Lives-trans s t s' (Step-Lives s t h b) (Reaches-Lives t s' r (step-keeps s t h b))

-- In a shop whose books are right no step of `Reaches` loses an order, and each order goes only
-- along the edges of its life, whatever steps run.
pub order-Life :
    (s s' : Shop) (id : String) (o : Order)
    → Books s
    → Reaches s s'
    → lookup id s.orders ≡ some o
    → (o' : Order) × (lookup id s'.orders ≡ some o') × Life o.state o'.state
order-Life s s' id o b r there = Reaches-Lives s s' r b id o there

-- In a shop whose books are right, an order that has failed, run out, been cancelled, been
-- refunded or is left to its provider to refund is still there after any steps of `Reaches`, in
-- the same state or refunded.
pub final_is_final :
    (s s' : Shop) (id : String) (o : Order)
    → Books s
    → Reaches s s'
    → lookup id s.orders ≡ some o
    → is_final o.state ≡ true
    → (o' : Order) × (lookup id s'.orders ≡ some o')
      × ((o'.state ≡ o.state) ⊎ (o'.state ≡ refunded))
final_is_final s s' id o b r there h =
    let (o', there', l) = Reaches-Lives s s' r b id o there in
    (o', there', final_stays o.state o'.state l h)
