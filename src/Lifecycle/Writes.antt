-- ===== src/Lifecycle/Writes.antt =====
-- The writes of dao/ with the arguments that the rest of the
-- service gives them, and the databases that sequences of them lead to. Several goroutines write to
-- one database; a sequence takes their writes in the order in which the database does them, and each
-- may meet faults of its own.
use das_register.Prelude.{ℕ, List}
use das_register.Tables.Names.{Name, DasAction}
use das_register.Tables.Order.{Order, TxStatus}
use das_register.Tables.Pay.{PayInfo, OrderTx, OrderTxAction}
use das_register.Dao.Store.{Db, World, Done, Exec}
use das_register.Dao.Rows.{Driver}
use das_register.Dao.Orders.{
  create_order_and_order_txs, do_action_propose, do_action_confirm_proposal, create_order,
  create_order_with_payment, create_coupon_order, do_action_apply_register, do_action_pre_register,
  do_action_renew_account, update_pay_status, update_pre_register_status,
  update_order_to_closed_and_refund, update_order_to_refund, update_did_cell_order_to_refund,
  do_expired_order, update_order_redo_apply, update_order_status_closed, update_hedge_status,
}
use das_register.Dao.Others.{
  reset_coupon, mark_checked, update_pending_to_confirm, update_pending_to_rejected,
  update_pending_status_to_confirm, create_block_info, delete_block_info,
}
use das_register.Dao.Payments.{
  create_order_pay_info, update_pay_to_refund, update_uni_pay_refund_status_to_refunded,
  update_pay_hash_status_to_fail_by_dispute, update_payment, update_uni_pay_unconfirmed_to_rejected,
  update_refund_status_to_refund_ing, update_uni_pay_refund_status_to_default_for_not_uni_pay_order,
  create_order_tx, update_rejected_tx,
}

pub data Write : Type 0 where
  other_order : Driver → Order → List OrderTx → Write
  proposed : Driver → List Name → List OrderTx → Write
  proposal_confirmed : Driver → List Name → List Name → List Name → List OrderTx → Write
  order_created order_and_payment_created : Order → PayInfo → Write
  coupon_order_created : ℕ → Order → Name → Write
  apply_confirmed pre_register_confirmed renew_confirmed : Name → Name → Write
  pay_sent pay_unsent pre_register_sent pre_register_unsent hedged : Name → Write
  closed_and_refund to_refund did_cell_to_refund order_expired redo_apply status_closed :
      Name → Write
  pay_info_created payment_confirmed : PayInfo → Write
  pay_to_refund : Name → Write
  refunded : Name → Name → Name → Write
  disputed unconfirmed_rejected refund_reset : Name → Name → Write
  refund_ing : List ℕ → Write
  tx_created : OrderTx → Write
  tx_rejected : Driver → OrderTxAction → Name → Write
  coupon_reset coupon_checked : List Name → Write
  pending_confirmed : ℕ → ℕ → ℕ → Write
  pending_rejected : List ℕ → Write
  pending_on_chain : DasAction → Name → ℕ → ℕ → Write
  block_created : ℕ → Name → Name → Write
  block_deleted : ℕ → Write

-- The method of `DbDao` that makes the write.
unfoldable pub perform : Write → Exec Done
perform (Write.other_order d o ts) = create_order_and_order_txs d o ts
perform (Write.proposed d ids ts) = do_action_propose d ids ts
perform (Write.proposal_confirmed d ids oks accs ts) = do_action_confirm_proposal d ids oks accs ts
perform (Write.order_created o p) = create_order o
perform (Write.order_and_payment_created o p) = create_order_with_payment o p
perform (Write.coupon_order_created now o c) = create_coupon_order now o c
perform (Write.apply_confirmed i h) = do_action_apply_register i h
perform (Write.pre_register_confirmed i h) = do_action_pre_register i h
perform (Write.renew_confirmed i h) = do_action_renew_account i h
perform (Write.pay_sent i) = update_pay_status i TxStatus.sending TxStatus.ok
perform (Write.pay_unsent i) = update_pay_status i TxStatus.ok TxStatus.sending
perform (Write.pre_register_sent i) = update_pre_register_status i TxStatus.sending TxStatus.ok
perform (Write.pre_register_unsent i) = update_pre_register_status i TxStatus.ok TxStatus.sending
perform (Write.hedged i) = update_hedge_status i TxStatus.sending TxStatus.ok
perform (Write.closed_and_refund i) = update_order_to_closed_and_refund i
perform (Write.to_refund i) = update_order_to_refund i
perform (Write.did_cell_to_refund i) = update_did_cell_order_to_refund i
perform (Write.order_expired i) = do_expired_order i
perform (Write.redo_apply i) = update_order_redo_apply i
perform (Write.status_closed i) = update_order_status_closed i
perform (Write.pay_info_created p) = create_order_pay_info p
perform (Write.payment_confirmed p) = update_payment p
perform (Write.pay_to_refund i) = update_pay_to_refund i
perform (Write.refunded h i r) = update_uni_pay_refund_status_to_refunded h i r
perform (Write.disputed h i) = update_pay_hash_status_to_fail_by_dispute h i
perform (Write.unconfirmed_rejected h i) = update_uni_pay_unconfirmed_to_rejected i h
perform (Write.refund_reset h i) = update_uni_pay_refund_status_to_default_for_not_uni_pay_order h i
perform (Write.refund_ing ids) = update_refund_status_to_refund_ing ids
perform (Write.tx_created t) = create_order_tx t
perform (Write.tx_rejected d a i) = update_rejected_tx d a i
perform (Write.coupon_reset ids) = reset_coupon ids
perform (Write.coupon_checked ids) = mark_checked ids
perform (Write.pending_confirmed i n t) = update_pending_to_confirm i n t
perform (Write.pending_rejected ids) = update_pending_to_rejected ids
perform (Write.pending_on_chain a o n t) = update_pending_status_to_confirm a o n t
perform (Write.block_created n h p) = create_block_info n h p
perform (Write.block_deleted n) = delete_block_info n

-- Writes in a row, each from a world with the database that the one before it left, and with any
-- faults to come.
pub data Reach : Db → Db → Type 0 where
  stay : (db : Db) → Reach db db
  write : (db : Db) (w : World) (x : Write) → Reach db w.db → Reach db (perform x w).1.db
