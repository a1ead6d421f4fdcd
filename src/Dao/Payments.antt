-- ===== src/Dao/Payments.antt =====
-- dao/t_das_order_pay_info.go and dao/t_das_order_tx_info.go, the writes.
use das_register.Prelude.{ℕ, none, List, [], ◌∷◌, ◌&&◌, contains, nat_coded, ◌==◌, if◌then◌else◌}
use das_register.Tables.Names.{Name}
use das_register.Tables.Order.{
  self, TxStatus, OrderStatus, RegisterStatus, did_cell_no, did_cell_coded, order_type_coded,
  tx_status_coded, order_status_coded,
}
use das_register.Tables.Pay.{
  PayInfo, OrderTx, OrderTxStatus, OrderTxAction, apply_register, renew_account, pre_register,
  UniPayRefundStatus, order_tx_status_coded, refund_status_coded,
}
use das_register.Dao.Store.{Done, Exec, Statement, exec, transaction}
use das_register.Dao.Rows.{
  Driver, update_orders, update_pays, update_txs, insert_pay, insert_ignore_pay, upsert_tx,
}

unfoldable pub create_order_pay_info : PayInfo → Exec Done
create_order_pay_info order_pay = exec (insert_pay order_pay)

unfoldable pub update_pay_to_refund : Name → Exec Done
update_pay_to_refund order_id = exec (
    update_pays
      (λ p.
        p.order_id == order_id
        && p.status == OrderTxStatus.confirm
        && p.refund_status == TxStatus.default)
      (λ p. record p {
        refund_status = TxStatus.sending;
        uni_pay_refund_status = UniPayRefundStatus.un_refund;
      }))

unfoldable pub update_uni_pay_refund_status_to_refunded : Name → Name → Name → Exec Done
update_uni_pay_refund_status_to_refunded pay_hash order_id refund_hash = exec (
    update_pays
      (λ p.
        p.hash == pay_hash
        && p.order_id == order_id
        && p.status == OrderTxStatus.confirm
        && p.uni_pay_refund_status == UniPayRefundStatus.refunding)
      (λ p. record p {
        uni_pay_refund_status = UniPayRefundStatus.refunded;
        refund_hash = refund_hash;
      }))

unfoldable pub update_pay_hash_status_to_fail_by_dispute : Name → Name → Exec Done
update_pay_hash_status_to_fail_by_dispute pay_hash order_id = transaction (
    update_pays
      (λ p. p.hash == pay_hash && p.order_id == order_id && p.status == OrderTxStatus.confirm)
      (λ p. record p { status = OrderTxStatus.dispute })
    ∷ [])

unfoldable pub update_payment : PayInfo → Exec Done
update_payment payment_info = transaction (
    update_orders
      (λ o.
        o.order_id == payment_info.order_id
        && o.order_type == self
        && o.pay_status == TxStatus.default)
      (λ o. record o {
        pay_status = TxStatus.sending;
        register_status = RegisterStatus.apply_register;
      })
    ∷ insert_ignore_pay payment_info
    ∷ update_pays
        (λ p.
          p.hash == payment_info.hash
          && p.order_id == payment_info.order_id
          && p.status == OrderTxStatus.default)
        (λ p. record p {
          chain_type = payment_info.chain_type;
          address = payment_info.address;
          status = payment_info.status;
        })
    ∷ [])

unfoldable pub update_uni_pay_unconfirmed_to_rejected : Name → Name → Exec Done
update_uni_pay_unconfirmed_to_rejected order_id pay_hash = exec (
    update_pays
      (λ p.
        p.hash == pay_hash
        && p.order_id == order_id
        && p.status == OrderTxStatus.default
        && p.uni_pay_refund_status == UniPayRefundStatus.default)
      (λ p. record p { status = OrderTxStatus.rejected }))

unfoldable pub update_refund_status_to_refund_ing : List ℕ → Exec Done
update_refund_status_to_refund_ing ids = exec (
    update_pays
      (λ p.
        contains p.id ids
        && p.status == OrderTxStatus.confirm
        && p.uni_pay_refund_status == UniPayRefundStatus.un_refund)
      (λ p. record p { uni_pay_refund_status = UniPayRefundStatus.refunding }))

unfoldable pub update_uni_pay_refund_status_to_default_for_not_uni_pay_order :
    Name → Name → Exec Done
update_uni_pay_refund_status_to_default_for_not_uni_pay_order pay_hash order_id = exec (
    update_pays
      (λ p. p.hash == pay_hash && p.order_id == order_id && p.status == OrderTxStatus.confirm)
      (λ p. record p { uni_pay_refund_status = UniPayRefundStatus.default }))

unfoldable pub create_order_tx : OrderTx → Exec Done
create_order_tx order_tx = exec (upsert_tx order_tx)

-- The condition of the first case ends in `is_did_cell=？`, with a full-width question mark. If the
-- driver binds that mark, the statement is the one meant; if not, the server refuses it.
abbrev pub reset_pay_status : Driver → Name → Statement
reset_pay_status driver order_id db =
    if driver.binds_full_width_mark
    then update_orders
        (λ o.
          o.order_id == order_id
          && o.pay_status == TxStatus.ok
          && o.order_status == OrderStatus.default
          && o.is_did_cell == did_cell_no)
        (λ o. record o { pay_status = TxStatus.sending }) db
    else none

abbrev reset_pre_register_status : Name → Statement
reset_pre_register_status order_id =
    update_orders
      (λ o.
        o.order_id == order_id
        && o.pre_register_status == TxStatus.ok
        && o.order_status == OrderStatus.default)
      (λ o. record o { pre_register_status = TxStatus.sending })

-- The `switch action` of `UpdateRejectedTx`.
abbrev pub reset_by_action : Driver → OrderTxAction → Name → List Statement
reset_by_action driver apply_register order_id = reset_pay_status driver order_id ∷ []
reset_by_action driver renew_account order_id = reset_pay_status driver order_id ∷ []
reset_by_action driver pre_register order_id = reset_pre_register_status order_id ∷ []
reset_by_action driver _ order_id = []

unfoldable pub update_rejected_tx : Driver → OrderTxAction → Name → Exec Done
update_rejected_tx driver action order_id = transaction (
    update_txs (λ t. t.order_id == order_id && t.status == OrderTxStatus.default)
      (λ t. record t { status = OrderTxStatus.rejected })
    ∷ reset_by_action driver action order_id)
