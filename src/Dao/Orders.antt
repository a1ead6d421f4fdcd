-- ===== src/Dao/Orders.antt =====
-- dao/t_das_order_info.go, the writes.
use das_register.Prelude.{
  ℕ, Bool, some, List, [], ◌∷◌, not_in, ◌&&◌, ◌||◌, contains, nat_coded, ◌==◌, ◌<?◌, if◌then◌else◌,
}
use das_register.Tables.Names.{Name}
use das_register.Tables.Order.{
  Order, self, TxStatus, OrderStatus, RegisterStatus, did_cell_yes, did_cell_coded,
  order_type_coded, tx_status_coded, order_status_coded, register_status_coded,
}
use das_register.Tables.Pay.{
  PayInfo, OrderTx, OrderTxStatus, UniPayRefundStatus, order_tx_status_coded, refund_status_coded,
}
use das_register.Dao.Store.{Done, Exec, ◌>>◌, exec, transaction, open_transaction}
use das_register.Dao.Rows.{
  Driver, update_orders, update_pays, update_txs, update_coupons, insert_order, upsert_order,
  insert_pay, upsert_txs,
}

unfoldable pub create_order_and_order_txs : Driver → Order → List OrderTx → Exec Done
create_order_and_order_txs driver order list =
    transaction (upsert_order order ∷ upsert_txs driver list ∷ [])

unfoldable pub do_action_propose : Driver → List Name → List OrderTx → Exec Done
do_action_propose driver order_ids txs = transaction (
    update_orders
      (λ o. contains o.order_id order_ids && o.register_status == RegisterStatus.proposal)
      (λ o. record o { register_status = RegisterStatus.confirm_proposal })
    ∷ upsert_txs driver txs
    ∷ [])

unfoldable pub do_action_confirm_proposal :
    Driver → List Name → List Name → List Name → List OrderTx → Exec Done
do_action_confirm_proposal driver order_ids ok_order_ids account_ids txs = transaction (
    update_orders (λ o. contains o.order_id order_ids)
      (λ o. record o { register_status = RegisterStatus.registered })
    ∷ update_orders (λ o. contains o.account_id account_ids)
        (λ o. record o { order_status = OrderStatus.closed })
    ∷ upsert_txs driver txs
    ∷ update_orders
        (λ o.
          contains o.order_id order_ids
          && o.order_type == self
          && o.hedge_status == TxStatus.default)
        (λ o. record o { hedge_status = TxStatus.sending })
    ∷ update_pays
        (λ p.
          contains p.account_id account_ids
          && not_in p.order_id ok_order_ids
          && p.refund_status == TxStatus.default)
        (λ p. record p {
          refund_status = TxStatus.sending;
          uni_pay_refund_status = UniPayRefundStatus.un_refund;
        })
    ∷ [])

unfoldable pub create_order : Order → Exec Done
create_order order = exec (insert_order order)

-- The payment is inserted only if it has a hash.
unfoldable pub create_order_with_payment : Order → PayInfo → Exec Done
create_order_with_payment order payment =
    transaction (insert_order order ∷ (if payment.hash == 0 then [] else insert_pay payment ∷ []))

-- `now` is in seconds. The coupon's update may meet no row: the order is created all the same.
unfoldable pub create_coupon_order : ℕ → Order → Name → Exec Done
create_coupon_order now order coupon = transaction (
    insert_order order
    ∷ update_coupons (λ c. c.code == coupon && c.order_id == 0 && c.use_at == 0)
        (λ c. record c { order_id = order.order_id; use_at = now })
    ∷ [])

unfoldable pub do_action_apply_register : Name → Name → Exec Done
do_action_apply_register order_id hash = transaction (
    update_txs (λ t. t.order_id == order_id && t.hash == hash)
      (λ t. record t { status = OrderTxStatus.confirm })
    ∷ update_orders
        (λ o.
          o.order_id == order_id
          && o.pre_register_status == TxStatus.default
          && o.order_status == OrderStatus.default)
        (λ o. record o { pre_register_status = TxStatus.sending })
    ∷ update_orders
        (λ o. o.order_id == order_id && o.register_status <? RegisterStatus.pre_register)
        (λ o. record o { register_status = RegisterStatus.pre_register })
    ∷ [])

unfoldable pub do_action_pre_register : Name → Name → Exec Done
do_action_pre_register order_id hash = transaction (
    update_txs (λ t. t.order_id == order_id && t.hash == hash)
      (λ t. record t { status = OrderTxStatus.confirm })
    ∷ update_orders (λ o. o.order_id == order_id && o.register_status <? RegisterStatus.proposal)
        (λ o. record o { register_status = RegisterStatus.proposal })
    ∷ [])

-- The first two statements go through `d.db`, not through the transaction `tx` that is open: each
-- is committed at once, and a rollback undoes neither. The first `exec` is BEGIN.
unfoldable pub do_action_renew_account : Name → Name → Exec Done
do_action_renew_account order_id hash = do
  exec some
  exec (
      update_orders (λ o. o.order_id == order_id && o.order_status == OrderStatus.default)
        (λ o. record o { order_status = OrderStatus.closed }))
  exec (
      update_orders
        (λ o. o.order_id == order_id && o.order_type == self && o.hedge_status == TxStatus.default)
        (λ o. record o { hedge_status = TxStatus.sending }))
  open_transaction (
      update_txs (λ t. t.order_id == order_id && t.hash == hash)
        (λ t. record t { status = OrderTxStatus.confirm })
      ∷ [])

unfoldable pub update_pay_status : Name → TxStatus → TxStatus → Exec Done
update_pay_status order_id old_tx_status new_tx_status = exec (
    update_orders
      (λ o. o.order_id == order_id && o.order_type == self && o.pay_status == old_tx_status)
      (λ o. record o { pay_status = new_tx_status }))

unfoldable pub update_pre_register_status : Name → TxStatus → TxStatus → Exec Done
update_pre_register_status order_id old_tx_status new_tx_status = exec (
    update_orders
      (λ o.
        o.order_id == order_id && o.order_type == self && o.pre_register_status == old_tx_status)
      (λ o. record o { pre_register_status = new_tx_status }))

unfoldable pub update_order_to_closed_and_refund : Name → Exec Done
update_order_to_closed_and_refund order_id = transaction (
    update_orders
      (λ o. o.order_id == order_id && o.order_type == self && o.order_status == OrderStatus.default)
      (λ o. record o { order_status = OrderStatus.closed })
    ∷ [])

unfoldable pub update_order_to_refund : Name → Exec Done
update_order_to_refund order_id = transaction (
    update_orders (λ o. o.order_id == order_id && o.order_type == self)
      (λ o. record o { order_status = OrderStatus.closed })
    ∷ [])

unfoldable pub update_did_cell_order_to_refund : Name → Exec Done
update_did_cell_order_to_refund order_id = transaction (
    update_orders
      (λ o. o.order_id == order_id && o.order_type == self && o.is_did_cell == did_cell_yes)
      (λ o. record o { order_status = OrderStatus.closed })
    ∷ update_pays
        (λ p.
          p.order_id == order_id
          && p.status == OrderTxStatus.confirm
          && p.uni_pay_refund_status == UniPayRefundStatus.default)
        (λ p. record p { uni_pay_refund_status = UniPayRefundStatus.un_refund })
    ∷ [])

-- `register_status IN (RegisterStatusConfirmPayment, RegisterStatusDefault)`
abbrev pub is_unpaid_status : RegisterStatus → Bool
is_unpaid_status s = s == RegisterStatus.confirm_payment || s == RegisterStatus.default

unfoldable pub do_expired_order : Name → Exec Done
do_expired_order order_id = exec (
    update_orders
      (λ o.
        o.order_id == order_id
        && o.order_type == self
        && is_unpaid_status o.register_status
        && o.order_status == OrderStatus.default)
      (λ o. record o { order_status = OrderStatus.closed }))

unfoldable pub update_order_redo_apply : Name → Exec Done
update_order_redo_apply order_id = exec (
    update_orders
      (λ o.
        o.order_id == order_id
        && o.order_status == OrderStatus.default
        && o.pay_status == TxStatus.ok
        && o.pre_register_status == TxStatus.sending)
      (λ o. record o { pay_status = TxStatus.sending; pre_register_status = TxStatus.default }))

unfoldable pub update_order_status_closed : Name → Exec Done
update_order_status_closed order_id = exec (
    update_orders (λ o. o.order_id == order_id && o.order_status == OrderStatus.default)
      (λ o. record o { order_status = OrderStatus.closed }))

unfoldable pub update_hedge_status : Name → TxStatus → TxStatus → Exec Done
update_hedge_status order_id old_status new_status = exec (
    update_orders
      (λ o. o.order_id == order_id && o.order_type == self && o.hedge_status == old_status)
      (λ o. record o { hedge_status = new_status }))
