-- ===== src/Lib.antt =====
-- das-register is the service that registers and renews .bit accounts. A user's order is a row of
-- `t_das_order_info`; payments and chain transactions are rows of `t_das_order_pay_info` and
-- `t_das_order_tx_info`. The http service writes new orders (http_server/handle), the payment service
-- reports payments (unipay, http_server/handle/unipay_notice.go), txtool sends a transaction for each
-- paid order, the block parser (block_parser) follows the chain and moves the orders on, and the timer
-- (timer) closes, rejects and resets what is left over. They meet only in the database, through dao.
--
-- The files, with the code that they are about:
--   Prelude.antt, Prelude/*: shared names, Boolean tests, lists.
--   Tables.antt, Tables/*: tables/*.go. A row is a record with the columns that the code reads; a string
--     that is only compared is a number, and 0 is the empty string.
--   Dao/Store.antt: the database behind dao/dao.go: a `World` has the tables, a schedule that says which
--     statements to come fail, and the messages sent. `transaction` sends BEGIN, the statements and
--     COMMIT, and rolls back at the first error.
--   Dao/Rows.antt: the shapes of statement that gorm sends (UPDATE ... WHERE, INSERT with its unique keys,
--     ON DUPLICATE KEY UPDATE). `Driver` holds the two answers of gorm that the code leans on.
--   Dao/Orders.antt, Dao/Payments.antt, Dao/Others.antt, Dao/Queries.antt: the methods of `DbDao`, with
--     the method's name in snake case: `DoActionPropose` is `do_action_propose`.
--   Dao/Keeps.antt: relations between the databases before and after a run, by the structure of the run.
--   Dao/Proposals.antt, Dao/Repeats.antt, Dao/Rejections.antt: theorems on single methods.
--   Unipay/Token.antt, Unipay/Confirm.antt, Unipay/Refund.antt: timer/token.go, unipay/*.go and
--     http_server/handle/unipay_notice.go. Unipay/Rounding.antt, Unipay/Counts.antt,
--     Unipay/Notices.antt and Unipay/Refunds.antt: theorems on them.
--   TxTool/Register.antt: txtool/apply.go, pre_register.go, renew.go, did_cell.go, is_reboot.go.
--     TxTool/Sends.antt: theorems on the run for one order of the first.
--   Timer/Checks.antt: timer/expired.go, refund_apply.go (`doCheckClosedAndUnRefund`), update_coupon.go,
--     tx_rejected.go, pending.go, rejected.go. Timer/Expiry.antt: a theorem on the first.
--   BlockParser/Tx.antt, BlockParser/Handlers.antt, BlockParser/Run.antt: block_parser/*.go.
--     BlockParser/Numbers.antt, BlockParser/Steps.antt and BlockParser/Forks.antt: theorems on the numbers
--     of the blocks.
--   Internal.antt: internal/internal.go and internal/rpc_retry.go. Internal/Bounds.antt: theorems on them.
--   Handle/Reply.antt: http_server/api_code/api_code.go, and how a handler ends at its first error.
--     Handle/Service.antt: what a handler asks of other services and of das-lib, as a parameter.
--   Handle/Text.antt, Handle/Search.antt, Handle/Account.antt: http_server/handle/account_search.go.
--     Handle/Amounts.antt: `getAccountPrice` of account_detail.go and `getOrderAmount`.
--     Handle/Coupon.antt: the gift cards of order_register.go, with their lock in cache/coupon_limit.go.
--     Handle/Place.antt: the guards of handle.go, and the storing of an order that order_register.go,
--     order_change.go and order_renew.go share. Handle/Register.antt: order_register.go.
--     Handle/Change.antt: order_change.go, order_renew.go and order_pay_hash.go.
--     Handle/InternalOrder.antt: account_register.go and account_renew.go. Handle/Requests.antt: the
--     choice among the handlers.
--   Handle/Rules.antt, Reads.antt, Ends.antt, Closes.antt, Done.antt and Free.antt: rules by the structure
--     of a handler: what it leaves alone, how it ends, and the steps before a handler that is done.
--     Handle/Errors.antt, Stored.antt, Accepted.antt, Changed.antt, Renewed.antt, Lookup.antt, Cards.antt,
--     Locks.antt, Limits.antt and Sendable.antt: theorems on the handlers.
--   Lifecycle/Writes.antt: all writes of dao/, and the databases that sequences of them lead to.
--     Lifecycle/Grows.antt, Rows.antt, Statements.antt and Progress.antt: what no write does to a row.
--     Lifecycle/Chain.antt, Timers.antt, Payments.antt, Sending.antt, Parsing.antt, Requests.antt and
--     Jobs.antt: the jobs and the requests as sequences of the writes.
--   Dao/Latest.antt: theorems on the order that a read with a sort comes up with.
--   Samples.antt, Samples/Shop.antt, Scenarios.antt, Scenarios/Requests.antt: a small database and a
--     service with simple answers, and the theorems tried on them.
--
-- Faults: a statement fails when the schedule says so and not past its end, so a theorem over all worlds
-- is about every pattern of failures. A statement that the database refuses is `none`. Times and the
-- answers of other services are arguments. Block numbers are uint64, and their wrap-around is written
-- out. The retry loops take the number of attempts that the configuration allows, which the source counts
-- down too, and the loop over a list is structural. A handler runs on a `Site`: the world, the gift cards
-- that are locked in redis, and the orders that were created at unipay. Decimals are a parameter with the
-- operations that the code calls.
--
-- Not modelled: what the transactions contain and how they are decoded (das-lib), the http handlers that
-- build transactions (did_cell_renew.go, which the router runs for a renewal in place of
-- order_renew.go, is one) or page through das-database, create_coupon.go, the cache but the lock of a gift
-- card, notifications, metrics and the reading of the configuration. The recycling of cells in timer/
-- only builds transactions and changes no table.

pub mod Prelude
pub mod Tables
pub mod Dao
pub mod Internal
pub mod Handle
pub mod Unipay
pub mod TxTool
pub mod Timer
pub mod BlockParser
pub mod Lifecycle
pub mod Samples
pub mod Scenarios
