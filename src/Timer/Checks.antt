-- ===== src/Timer/Checks.antt =====
-- timer/expired.go, timer/refund_apply.go (`doCheckClosedAndUnRefund`), timer/update_coupon.go,
-- timer/tx_rejected.go, timer/pending.go and timer/rejected.go: the periodic checks of the tables.
use das_register.Prelude.{
  ℕ, ◌+◌, ◌-◌, ◌*◌, Bool, true, false, Option, none, some, List, [], ◌∷◌, not, ◌&&◌, ltb, filter,
  map, length, nat_coded, ◌==◌, if◌then◌else◌,
}
use das_register.Tables.Names.{Name}
use das_register.Tables.Order.{
  Order, OrderStatus, RegisterStatus, order_status_coded, register_status_coded,
}
use das_register.Tables.Pay.{OrderTx}
use das_register.Tables.Rest.{PendingInfo}
use das_register.Dao.Store.{
  Done, Exec, Result, ok, err, Error, World, pure, raise, ◌>>=◌, ◌>>◌, log_error, when, for_each,
}
use das_register.Dao.Rows.{Driver}
use das_register.Dao.Orders.{do_expired_order}
use das_register.Dao.Payments.{update_pay_to_refund, update_rejected_tx}
use das_register.Dao.Others.{
  get_used_coupon_not_checked, reset_coupon, mark_checked, get_pending_list,
  update_pending_to_confirm, update_pending_to_rejected, search_maybe_rejected_pending,
}
use das_register.Dao.Queries.{
  get_need_expired_orders, get_need_expired_orders2, get_closed_and_un_refund_orders,
  get_maybe_rejected_register_txs, last_of,
}

-- `now` is in milliseconds.
unfoldable pub check_expired : ℕ → Exec Done
unfolding for_each
check_expired now = do
  list ← get_need_expired_orders now
  for_each (λ v. do_expired_order v.order_id) list
  list2 ← get_need_expired_orders2 now
  for_each (λ v. do_expired_order v.order_id) list2

unfoldable pub do_check_closed_and_un_refund : Exec Done
unfolding for_each
do_check_closed_and_un_refund = do
  list ← get_closed_and_un_refund_orders
  for_each (λ v. update_pay_to_refund v.order_id) list

-- The two lists that the loop of `DoResetCoupon` collects.
abbrev pub failed_coupon_order_id : List Order → List Name
failed_coupon_order_id res =
    map (λ o. o.order_id)
      (filter
        (λ o.
          o.order_status == OrderStatus.closed
          && not (o.register_status == RegisterStatus.registered))
        res)

abbrev pub success_coupon_order_id : List Order → List Name
success_coupon_order_id res =
    map (λ o. o.order_id)
      (filter
        (λ o.
          o.order_status == OrderStatus.closed && o.register_status == RegisterStatus.registered)
        res)

abbrev is_nonempty : List Name → Bool
is_nonempty [] = false
is_nonempty (x ∷ xs) = true

unfoldable pub do_reset_coupon : Exec Done
do_reset_coupon = do
  res ← get_used_coupon_not_checked
  when (is_nonempty (failed_coupon_order_id res)) (reset_coupon (failed_coupon_order_id res))
  when (is_nonempty (success_coupon_order_id res)) (mark_checked (success_coupon_order_id res))

-- `TxStatus.Status` of a transaction on the chain.
pub data ChainStatus : Type 0 where
  pending proposed committed rejected unknown : ChainStatus

-- `GetTransaction` and `GetBlock` are parameters: a transaction's status, and the number and the
-- time of the block that holds it, `none` where the call fails.
pub record Client : Type 0 where
  pub get_transaction : Name → Option ChainStatus
  pub block_of : Name → Option (ℕ × ℕ)

abbrev is_rejected : Option ChainStatus → Bool
is_rejected (some ChainStatus.rejected) = true
is_rejected _ = false

-- An error of `GetTransaction` or of `UpdateRejectedTx` is logged, and the loop goes on.
abbrev check_tx : Driver → Client → OrderTx → Exec Done
check_tx driver client v =
    when (is_rejected (client.get_transaction v.hash))
      (log_error (update_rejected_tx driver v.action v.order_id))

-- Transactions that are between ten minutes and 72 hours old; `now` is in milliseconds.
unfoldable pub do_tx_rejected : Driver → Client → ℕ → Exec Done
unfolding for_each
do_tx_rejected driver client now = do
  list ← get_maybe_rejected_register_txs (now - 72 * 3600000) (now - 600000)
  for_each (check_tx driver client) list

-- The row of `t_transaction_info` that das-database wrote for an outpoint: its block and its time.
pub record TransactionInfo : Type 0 where
  pub outpoint : Name
  pub block_number : ℕ
  pub block_timestamp : ℕ

-- `mapPending[v.Outpoint]`: a later row of the list replaces an earlier one.
abbrev pending_id : List PendingInfo → Name → Option ℕ
pending_id list outpoint = elim (last_of none (filter (λ p. p.outpoint == outpoint) list)) [
  | none ↦ none
  | some p ↦ some p.id
]

abbrev pub confirm_id : Option ℕ → TransactionInfo → Exec Done
confirm_id none v = pure tt
confirm_id (some id) v = update_pending_to_confirm id v.block_number v.block_timestamp

-- How many rows the next call reads: more if a full list had no transaction, fewer if it had some.
unfoldable pub next_limit : ℕ → ℕ → ℕ → ℕ
next_limit pending_limit listed found =
    if listed == pending_limit && found == 0
    then pending_limit + 10
    else if ltb 10 pending_limit && ltb 0 found
    then pending_limit - 10
    else pending_limit

-- `checkPending` returns the next limit, and the one that it was given where it returns an error.
-- `GetTransactionListByOutpoints` reads the table of das-database, and is a parameter.
abbrev pub check_list : (List Name → List TransactionInfo) → ℕ → List PendingInfo → Exec ℕ
check_list transactions pending_limit [] = pure pending_limit
check_list transactions pending_limit (p ∷ ps) =
    let txs = transactions (map (λ v. v.outpoint) (p ∷ ps)) in
    do
      for_each (λ v. confirm_id (pending_id (p ∷ ps) v.outpoint) v) txs
      pure (next_limit pending_limit (length (p ∷ ps)) (length txs))

unfoldable pub check_pending : (List Name → List TransactionInfo) → ℕ → Exec ℕ
unfolding for_each
check_pending transactions pending_limit = do
  list ← get_pending_list pending_limit
  check_list transactions pending_limit list

abbrev pub confirm_at : ℕ → Option (ℕ × ℕ) → Exec Done
confirm_at id none = pure tt
confirm_at id (some (number, timestamp)) = log_error (update_pending_to_confirm id number timestamp)

abbrev confirm_committed : Client → PendingInfo → Exec Done
confirm_committed client v = confirm_at v.id (client.block_of v.outpoint)

-- One round of the loop of `checkRejected`: it collects the rejected ids, confirms what a block
-- holds, and returns at the first error of `GetTransaction`.
abbrev pub check_row : Client → PendingInfo → Option ChainStatus → List ℕ → Exec (List ℕ)
check_row client v none ids = raise Error.chain_error
check_row client v (some ChainStatus.rejected) ids = pure (v.id ∷ ids)
check_row client v (some ChainStatus.committed) ids = confirm_committed client v >> pure ids
check_row client v (some _) ids = pure ids

abbrev pub bind_ids : Result (List ℕ) × World → (List ℕ → Exec (List ℕ)) → Result (List ℕ) × World
bind_ids (ok ids, w) k = k ids w
bind_ids (err e, w) k = (err e, w)

unfoldable pub check_rows : Client → List PendingInfo → List ℕ → Exec (List ℕ)
check_rows client [] ids w = (ok ids, w)
check_rows client (v ∷ vs) ids w =
    bind_ids (check_row client v (client.get_transaction v.outpoint) ids w)
      (λ ids' w'. check_rows client vs ids' w')

abbrev pub reject_ids : List ℕ → Exec Done
reject_ids [] = pure tt
reject_ids (i ∷ is) = update_pending_to_rejected (i ∷ is)

-- `synced` is `IsLatestBlockNumber`; `now` is in milliseconds.
unfoldable pub check_rejected : Bool → Client → ℕ → Exec Done
unfolding check_rows
check_rejected synced client now = if not synced then raise Error.sync_error else do
  list ← search_maybe_rejected_pending (now - 86400000) now
  rejected_ids ← check_rows client list []
  reject_ids rejected_ids
