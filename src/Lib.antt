-- ===== src/Lib.antt =====
-- The core of the control plane of the panel: accounts with plans and metered quota, a wallet and
-- the orders that are paid from it, sites that share a user's quota, payments through providers,
-- support tickets, a queue of tasks, and the parser of TLS hellos of its gateway. The Go sources
-- are under backend/internal; paths below are from there.
--
-- The parts and how they interact. Orders (controlplane/commerce_*.go) move money in the wallet,
-- and give an account a plan when they are fulfilled. Fulfilment waits until no site owes an
-- account of the user's old authorisation, pauses the old plan, and shares the new quota among the
-- sites. Metering turns the counters of the proxy cores into traffic of accounts, each account's
-- quota is used up by its meter, and a round over the accounts starts new quota periods or
-- restores paused plans. Providers of payments call back; a payment is recorded once, tied to the
-- attempt it names, and then reconciled: it confirms its order, or tops up the wallet, or is
-- marked for its provider to refund. Support tickets have a desk of their own and only name
-- orders. The ingress gateway reads the first message of a TLS connection before it routes it.
-- Sites are granted a part of what is left of a quota, and the controller's own core gets the
-- rest.
--
-- The files:
--
--   Domain/Counters, Domain/Periods, Domain/Account: domain/entitlement.go and
--     domain/account.go. weighted_bytes is WeightedBytes, add_counter is AddCounter, next_period
--     is NextPeriod, init_meter is InitMeter, active is Active.
--   Plans, Plans/Queue, Plans/Position: pauseCurrentPlan, restorePreviousPlan and assignPlan of
--     controlplane/node_policy.go, and orderEntitlementPosition and removeQueuedEntitlement of
--     controlplane/commerce_orders.go.
--   Wallet and its children: postMoney of controlplane/commerce_types.go, and as IsSound what
--     controlplane/commerce_integrity.go checks of wallets and entries.
--   Sites, Sites/Grants, Sites/Budget, Sites/Safety: the records of
--     controlplane/business_types.go with the monthly budget, and
--     controlplane/business_quota.go.
--   Commerce: the records of orders, offers, payments and refund requests, and the tables that
--     the handlers share, as the record Shop. Commerce/Settle is the end of each handler: the
--     movement, the guarded write of the order, and the account. Commerce/Held is the check of
--     held balances, and Commerce/Settle.Books puts it together with IsSound.
--   Commerce/Create, Commerce/Confirm, Commerce/Cancel, Commerce/Review, Commerce/Refund:
--     createOrder, the actions of orderAction, failProvisioning and refundableOrderAmount.
--   Commerce/Fulfil, Commerce/Fulfil/Budgets, Commerce/Work: fulfilOrder, purchaseSiteBudgets
--     and commerceWork of controlplane/commerce_fulfilment.go.
--   Commerce/Moves and Commerce/Reach: the life of an order as a relation on its states, and the
--     shop as a transition system whose steps are the handlers, the rounds of the worker, the
--     callbacks of payments, their reconciliations, the finished refunds of providers, and
--     credits. The writers of orders in controlplane/crypto_scanner.go, crypto_invoices.go,
--     payment_api.go and store.go are no steps of it.
--   Metering: Store.account of controlplane/usage_meter.go.
--   Cycles: advanceQuotaPeriods of controlplane/entitlement_cycles.go.
--   Jobs and its children: jobs/manager.go.
--   Payments, Payments/Reconcile, Payments/Refunds: recordPaymentEvent, reconcilePaymentReceipt,
--     paymentRefundRequired and creditPaymentTopup of controlplane/payment_receipts.go, and
--     finishPaymentRefund of controlplane/payment_refunds.go. Payments/Claims says when a
--     payment is accepted, Payments/Outcomes and Payments/Reconciled what the branches write,
--     Payments/Once and Payments/Kept what they leave of receipts and attempts, Payments/Quiet
--     and Payments/Books what they do to money and orders, Payments/Repeated is about a second
--     reconciliation, and Payments/Receipts and Payments/Honest are about the transition system
--     of callbacks and reconciliations.
--   Support, Support/Steps: createTicket, replyTicket, changeTicket, saveTicket and
--     bindTicketImages of controlplane/support.go with the states of
--     controlplane/support_ticket_state.go; Support/Images, Support/Outcomes, Support/Tidy and
--     Support/Desks are about them. Support/Page is supportTicketPage; Support/Sorted,
--     Support/Scans, Support/Pages and Support/Walk are about it.
--   Ingress: readClientHello, helloCursor and parseHelloBody of ingressgateway/clienthello.go
--     with validDomain of ingressgateway/config.go. Ingress/Replay is about the bytes kept,
--     Ingress/Fragments about messages cut into records, Ingress/Offers and Ingress/Parse about
--     the body.
--   Cache, Cache/Calls, Cache/Fresh: the local map of cache/cache.go, its calls, and the plain
--     record of what has been written to it.
--   Prelude: the shared types, lists, maps, integers, results and their lemmas. Tests: concrete
--     inputs.
--
-- A handler is one step on the record of its tables: it runs as one transaction under the lock of
-- the application, and an error leaves the tables as they were; fulfilOrder collects traffic
-- before its transaction, so the worker keeps the accounts as collected when the order fails
-- later. A SQL table is an association list whose first row of a key is its row, or a list of
-- rows. A handler's error is a constructor of Error named for its message. Fresh identifiers, the
-- time and digests are arguments.
--
-- Numbers are natural where the code keeps int64 values that are never negative, and integers
-- where they may be. Counters stay below 2^60 and money below 10^11 by the guards of the code, so
-- their sums do not reach 2^63 and are not wrapped; the products of a refund can wrap and are
-- written with int64. Loops are recursion on the lists that the code ranges over, so there is no
-- fuel; the loop of supportTicketPage has some, one more than there are rows, since each round
-- passes a row at least, and the loops over extensions and names of a ClientHello have as much as
-- there are bytes, since each round takes some; the loop over records counts down from the limit
-- of 128 that the code has. The one range over a Go map that stops early, the eviction of the
-- cache, takes the entry that it meets first as an argument.
--
-- The key of a movement, which the code writes as one text of a kind and an order, is a pair. Not
-- modelled are messages for people, notifications, audit and history rows, the replay of
-- operations by their keys, passwords, failures of the database, and the locks on chains of crypto
-- payments. Parameters are the time zone database, the collection of traffic from running cores,
-- the nodes that an account may use, whether the owner of a site is enabled, the policy of a node,
-- the order that the database has on texts, the lower case of characters and of bytes, the nodes
-- that a ticket may name, and the state of the chain of a crypto payment. The text functions of
-- Go's library are in Prelude/Text.
mod Prelude
pub mod Domain
pub mod Plans
pub mod Wallet
pub mod Sites
pub mod Commerce
pub mod Jobs
pub mod Metering
pub mod Cycles
pub mod Payments
pub mod Support
pub mod Tests
pub mod Ingress
pub mod Cache
