-- ===== src/Lib.antt =====
-- The payment library of drogon-pay (libs/drogon-pay), as far as its core logic goes: amounts and
-- states, the check of callback URLs, the idempotency of requests, refunds from the request to the
-- settled order, the creation of QR payments, the notifications of the channels, the queries of a
-- payment, the reconciliation sweeps, and the check of API keys.
--
-- The parts. Common holds the texts (a std::string is the list of its bytes, Bytes), the searches
-- of std::string with their laws, int64 values that may be negative, and tests over small tables.
-- Models has the rows of sql/001_init_pay_tables.sql, the status texts as data types, and the
-- statements that the services run: a table is a list of rows, and a call of the database
-- succeeds, answers with an exception, or is never sent (Fault). Utils follows
-- libs/drogon-pay/src/utils/PayUtils.cc: Amount has parseAmountToFen, Status has mapTradeState,
-- mapRefundStatus and resolveRefundedOrderStatus, Host has parseIpv4, isPrivateIpv4,
-- isGlobalUnicastIpv6, isNumericAddressShape and isBlockedHost, NotifyUrl has extractUrlHost and
-- validateNotifyUrl, PathSegment has urlEncodePathSegment, OrderFields has
-- validateWechatOrderFields, Deadline has parseRfc3339, daysFromCivil and validateTimeExpire, and
-- OnceCallback follows utils/OnceCallback.h. Services.Idempotency follows
-- services/IdempotencyService.cc. Services.Refund follows services/RefundService.cc: Create has
-- the stages of proceedRefund in the order of the source, Invoke the channel call and its answers,
-- Settle the writes behind them, Request has createRefund around all of it, Refusals has the texts
-- behind which a refund did not happen, Ledger has insertLedgerEntry, and Sync has queryRefund and
-- syncRefundStatusFromWechat. Services.Callback follows services/CallbackService.cc: Window has
-- the five minute window and the nonce, Verify what a notification carries, Reserve the
-- reservation of its key, Trade the checks of a transaction, Payment and Deliver
-- handlePaymentCallback, Refund and RefundDeliver handleRefundCallback. Services.Payment follows
-- services/PaymentService.cc: Refusals has what a channel's answer to a new payment means, QrOffer
-- and Qr the stages of createQRPayment, QrRequest its checks and its key, Sync the transaction
-- that the two syncs share, Answers the two syncs. Services.Reconciliation follows
-- services/ReconciliationService.cc. Models.Members has what the statements read as rows of their
-- tables. Models.Lifecycle is the specification that these services refine: the diagram of the
-- states of a payment as a step relation, and what a table may become when each row follows it.
-- Handlers.AuthCheck follows handlers/AuthCheck.cc. Tests has concrete runs. A function has the
-- name of its C++ function in snake case.
--
-- How the parts interact. createRefund asks the idempotency service for the key, proceedRefund
-- checks the request with validateNotifyUrl, chooses and checks the payment and the order, and
-- inserts the refund row in a transaction; the channel is called behind the COMMIT, and its answer
-- is mapped and booked. A notification is checked, its key is reserved, and one transaction
-- settles payment, order, ledger and reservation. reconcile calls the syncs one after the other
-- for the rows of its sweeps; the channel's answers come in any order in the source, and the
-- sequence is one of them. Each function takes the tables and returns them with the answer; the
-- asynchronous callbacks of the source are the composition of these functions. Between the calls
-- of the database other writers may run: Env.others, IdempotencyEnv.other_clients,
-- SyncEnv.between, PaymentSyncEnv.between, ReconcileEnv.meanwhile, QrEnv.others and the points of
-- a callback's environment are arbitrary functions on the tables, and a theorem says what it asks
-- of them. The transaction of a refund is one step for them, and so is the transaction of a sync:
-- the lock of the payment row keeps the other refunds of that payment out, but refunds of a second
-- payment of the order are kept out by nothing in the code, and their interleaving inside the
-- transaction is not modelled.
--
-- Given from outside: the channels (a function from a payload to an answer), the clock, getUuid,
-- the JSON reader of a notification, its signature and cipher, CRYPTO_memcmp, the hash of a
-- request, the JSON text of an answer (write and read), the text of SUM(CAST(amount AS NUMERIC)),
-- and every fault of the database. A COMMIT that answers with an exception may have been applied:
-- commit_applied of an environment says whether it was.
--
-- Bounds. Amounts are natural numbers of fen; int64 is written out where a sum can pass it (scale,
-- add_int64). numeric_labels runs on fuel, one more than the length of the host; each round drops
-- a label and its dot, so that the fuel is never used up.
--
-- Not modelled: the ORM classes (generated), HTTP, signatures and the providers' formats
-- (channels), createPayment, queryOrder and closeOrder in PaymentService.cc, the reconciliation
-- timer, the handlers but for the check of the API key, Redis (written only), log lines and the
-- payload columns. A Response leaves out the echoed body of the channel.
pub mod Common
pub mod Models
pub mod Utils
pub mod Services
pub mod Handlers
pub mod Tests
