-- ===== src/Lifecycle/Progress.antt =====
-- Every write of the service moves the rows of the orders and payments forward only.
use das_register.Prelude.{
  Bool, true, false, List, [], ◌∷◌, refl, if◌then◌else◌, ◌==◌, All, nat_coded,
}
use das_register.Tables.Names.{Name}
use das_register.Tables.Order.{Order, tx_status_coded, order_status_coded}
use das_register.Tables.Pay.{
  PayInfo, UniPayRefundStatus, OrderTxAction, order_tx_status_coded, apply_register, renew_account,
  pre_register, confirm_payment, propose, confirm_proposal, transfer_account,
}
use das_register.Lifecycle.Statements.{
  orders-Safe, pays-Safe, elsewhere-Safe, upsert_tx-Safe, upsert_txs-Safe, insert_order-Safe,
  insert_pay-Safe, insert_ignore_pay-Safe, upsert_order-Safe, closed_step, paid_step, settled_step,
  marked_step, first_settled,
}
use das_register.Dao.Store.{transaction, Db, Statement, exec}
use das_register.Dao.Rows.{insert_order, insert_pay, Driver}
use das_register.Dao.Keeps.{
  Keeps, Safe, exec-Keeps, transaction-Keeps, open_transaction-Keeps, then-Keeps, provided-Safe,
}
use das_register.Dao.Orders.{
  create_order_and_order_txs, do_action_propose, do_action_confirm_proposal, create_order,
  create_order_with_payment, create_coupon_order, do_action_apply_register, do_action_pre_register,
  do_action_renew_account, update_pay_status, update_pre_register_status,
  update_order_to_closed_and_refund, update_order_to_refund, update_did_cell_order_to_refund,
  do_expired_order, update_order_redo_apply, update_order_status_closed, update_hedge_status,
}
use das_register.Dao.Payments.{
  create_order_pay_info, update_pay_to_refund, update_uni_pay_refund_status_to_refunded,
  update_pay_hash_status_to_fail_by_dispute, update_payment, update_uni_pay_unconfirmed_to_rejected,
  update_refund_status_to_refund_ing, update_uni_pay_refund_status_to_default_for_not_uni_pay_order,
  create_order_tx, update_rejected_tx, reset_pay_status, reset_by_action,
}
use das_register.Dao.Others.{
  reset_coupon, mark_checked, update_pending_to_confirm, update_pending_to_rejected,
  update_pending_status_to_confirm, create_block_info, delete_block_info,
}
use das_register.Lifecycle.Rows.{OrderStep-refl, PayStep-refl, Progress, Progress-Preorder}
use das_register.Lifecycle.Writes.{Write, perform, Reach}

one : {f : Statement} → Safe Progress f → Keeps Progress (exec f)
one safe = exec-Keeps Progress Progress-Preorder _ safe

all : (fs : List Statement) → All (Safe Progress) fs → Keeps Progress (transaction fs)
all fs safe = transaction-Keeps Progress Progress-Preorder fs safe

with_payment :
    (b : Bool) (o : Order) (p : PayInfo)
    → Keeps Progress (transaction (insert_order o ∷ (if b then [] else insert_pay p ∷ [])))
with_payment true o p = all _ (insert_order-Safe o, tt)
with_payment false o p = all _ (insert_order-Safe o, (insert_pay-Safe p, tt))

reset-Safe : (d : Driver) (i : Name) → Safe Progress (reset_pay_status d i)
reset-Safe d i =
    provided-Safe Progress Progress-Preorder d.binds_full_width_mark _
      (orders-Safe _ _ (λ o _. paid_step o))

by_action :
    (d : Driver) (a : OrderTxAction) (i : Name) → All (Safe Progress) (reset_by_action d a i)
by_action d apply_register i = (reset-Safe d i, tt)
by_action d renew_account i = (reset-Safe d i, tt)
by_action d pre_register i = (orders-Safe _ _ (λ o _. OrderStep-refl o), tt)
by_action d confirm_payment i = tt
by_action d propose i = tt
by_action d confirm_proposal i = tt
by_action d transfer_account i = tt
by_action d (OrderTxAction.unnamed n) i = tt

perform-Progress : (x : Write) → Keeps Progress (perform x)
unfolding perform create_order_and_order_txs do_action_propose do_action_confirm_proposal
    create_order create_order_with_payment create_coupon_order do_action_apply_register
    do_action_pre_register do_action_renew_account update_pay_status update_pre_register_status
    update_order_to_closed_and_refund update_order_to_refund update_did_cell_order_to_refund
    do_expired_order update_order_redo_apply update_order_status_closed update_hedge_status
    create_order_pay_info update_pay_to_refund update_uni_pay_refund_status_to_refunded
    update_pay_hash_status_to_fail_by_dispute update_payment update_uni_pay_unconfirmed_to_rejected
    update_refund_status_to_refund_ing update_uni_pay_refund_status_to_default_for_not_uni_pay_order
    create_order_tx update_rejected_tx reset_coupon mark_checked update_pending_to_confirm
    update_pending_to_rejected update_pending_status_to_confirm create_block_info delete_block_info
perform-Progress (Write.other_order d o ts) =
    all _ (upsert_order-Safe o, (upsert_txs-Safe d ts, tt))
perform-Progress (Write.proposed d ids ts) =
    all _ (orders-Safe _ _ (λ o _. OrderStep-refl o), (upsert_txs-Safe d ts, tt))
perform-Progress (Write.proposal_confirmed d ids oks accs ts) = all _ (
  orders-Safe _ _ (λ o _. OrderStep-refl o),
  (
    orders-Safe _ _ (λ o _. closed_step o),
    (
      upsert_txs-Safe d ts,
      (
        orders-Safe _ _ (λ o _. OrderStep-refl o),
        (pays-Safe _ _ (λ p _. marked_step p UniPayRefundStatus.un_refund), tt),
      ),
    ),
  ),
)
perform-Progress (Write.order_created o p) = one (insert_order-Safe o)
perform-Progress (Write.order_and_payment_created o p) = with_payment (p.hash == 0) o p
perform-Progress (Write.coupon_order_created now o c) =
    all _ (insert_order-Safe o, (elsewhere-Safe _ (λ db. refl) (λ db. refl), tt))
perform-Progress (Write.apply_confirmed i h) = all _ (
  elsewhere-Safe _ (λ db. refl) (λ db. refl),
  (orders-Safe _ _ (λ o _. OrderStep-refl o), (orders-Safe _ _ (λ o _. OrderStep-refl o), tt)),
)
perform-Progress (Write.pre_register_confirmed i h) =
    all _
      (elsewhere-Safe _ (λ db. refl) (λ db. refl), (orders-Safe _ _ (λ o _. OrderStep-refl o), tt))
perform-Progress (Write.renew_confirmed i h) =
    then-Keeps Progress Progress-Preorder
      (one (elsewhere-Safe (λ db. db) (λ db. refl) (λ db. refl)))
      (then-Keeps Progress Progress-Preorder (one (orders-Safe _ _ (λ o _. closed_step o))) (
        then-Keeps Progress Progress-Preorder (one (orders-Safe _ _ (λ o _. OrderStep-refl o))) (
          open_transaction-Keeps Progress Progress-Preorder _
            (elsewhere-Safe _ (λ db. refl) (λ db. refl), tt))))
perform-Progress (Write.pay_sent i) = one (orders-Safe _ _ (λ o _. paid_step o))
perform-Progress (Write.pay_unsent i) = one (orders-Safe _ _ (λ o _. paid_step o))
perform-Progress (Write.pre_register_sent i) = one (orders-Safe _ _ (λ o _. OrderStep-refl o))
perform-Progress (Write.pre_register_unsent i) = one (orders-Safe _ _ (λ o _. OrderStep-refl o))
perform-Progress (Write.hedged i) = one (orders-Safe _ _ (λ o _. OrderStep-refl o))
perform-Progress (Write.closed_and_refund i) = all _ (orders-Safe _ _ (λ o _. closed_step o), tt)
perform-Progress (Write.to_refund i) = all _ (orders-Safe _ _ (λ o _. closed_step o), tt)
perform-Progress (Write.did_cell_to_refund i) =
    all _ (orders-Safe _ _ (λ o _. closed_step o), (pays-Safe _ _ (λ p _. PayStep-refl p), tt))
perform-Progress (Write.order_expired i) = one (orders-Safe _ _ (λ o _. closed_step o))
perform-Progress (Write.redo_apply i) = one (orders-Safe _ _ (λ o _. paid_step o))
perform-Progress (Write.status_closed i) = one (orders-Safe _ _ (λ o _. closed_step o))
perform-Progress (Write.pay_info_created p) = one (insert_pay-Safe p)
perform-Progress (Write.payment_confirmed p) = all _ (
  orders-Safe _ _ (λ o _. paid_step o),
  (insert_ignore_pay-Safe p, (pays-Safe _ _ (λ x h. first_settled p x h), tt)),
)
perform-Progress (Write.pay_to_refund i) =
    one (pays-Safe _ _ (λ p _. marked_step p UniPayRefundStatus.un_refund))
perform-Progress (Write.refunded h i r) = one (pays-Safe _ _ (λ p _. PayStep-refl p))
perform-Progress (Write.disputed h i) = all _ (pays-Safe _ _ (λ p _. settled_step p), tt)
perform-Progress (Write.unconfirmed_rejected h i) = one (pays-Safe _ _ (λ p _. settled_step p))
perform-Progress (Write.refund_reset h i) = one (pays-Safe _ _ (λ p _. PayStep-refl p))
perform-Progress (Write.refund_ing ids) = one (pays-Safe _ _ (λ p _. PayStep-refl p))
perform-Progress (Write.tx_created t) = one (upsert_tx-Safe t)
perform-Progress (Write.tx_rejected d a i) =
    all _ (elsewhere-Safe _ (λ db. refl) (λ db. refl), by_action d a i)
perform-Progress (Write.coupon_reset ids) = one (elsewhere-Safe _ (λ db. refl) (λ db. refl))
perform-Progress (Write.coupon_checked ids) = one (elsewhere-Safe _ (λ db. refl) (λ db. refl))
perform-Progress (Write.pending_confirmed i n t) = one (elsewhere-Safe _ (λ db. refl) (λ db. refl))
perform-Progress (Write.pending_rejected ids) = one (elsewhere-Safe _ (λ db. refl) (λ db. refl))
perform-Progress (Write.pending_on_chain a o n t) = one (elsewhere-Safe _ (λ db. refl) (λ db. refl))
perform-Progress (Write.block_created n h p) = one (elsewhere-Safe _ (λ db. refl) (λ db. refl))
perform-Progress (Write.block_deleted n) = one (elsewhere-Safe _ (λ db. refl) (λ db. refl))

-- Over any writes of the service, with any faults, every order and every payment keeps its row, its
-- id, its order's id and its hash; an order that is closed stays closed, one that is paid stays
-- paid, a payment that is settled stays settled, and one that is marked for a refund stays marked;
-- and if no two orders had one order's id, and no two payments one hash, then none have.
pub reach-Progress : (db db' : Db) → Reach db db' → Progress db db'
reach-Progress _ _ (Reach.stay db) = Progress-Preorder.same db
reach-Progress _ _ (Reach.write db w x before) =
    Progress-Preorder.join db w.db (perform x w).1.db (reach-Progress db w.db before)
      ((perform-Progress x).kept w)
