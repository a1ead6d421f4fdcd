-- ===== src/Lifecycle/Timers.antt =====
-- The jobs of timer/ as sequences of the writes.
use das_register.Prelude.{Option, none, some, List, [], ◌∷◌, ℕ, nat_coded}
use das_register.Tables.Names.{Name, das_action_coded}
use das_register.Tables.Order.{uni_pay_coded}
use das_register.Tables.Pay.{refund_status_coded, pay_hash_status_coded}
use das_register.Tables.Rest.{PendingInfo}
use das_register.Dao.Rows.{Driver}
use das_register.Dao.Keeps.{Keeps}
use das_register.Dao.Queries.{
  get_need_expired_orders, get_need_expired_orders2, get_closed_and_un_refund_orders,
  get_maybe_rejected_register_txs,
}
use das_register.Dao.Others.{get_used_coupon_not_checked, get_pending_list}
use das_register.Timer.Checks.{
  bind_ids, check_rows, check_rejected, confirm_id, check_list, confirm_at, check_row, reject_ids,
  TransactionInfo, check_pending, check_expired, do_check_closed_and_un_refund, do_reset_coupon,
  failed_coupon_order_id, success_coupon_order_id, do_tx_rejected, Client, ChainStatus,
}
use das_register.Lifecycle.Chain.{Reach-Preorder}
use das_register.Dao.Store.{World, Exec, Result, ok, err, Error}
use das_register.Dao.Others.{search_maybe_rejected_pending}
use das_register.Prelude.{Bool, true, false}
use das_register.Lifecycle.Writes.{Write, perform, Reach}
use das_register.Lifecycle.Chain.{writes, reads, next, also, each, rest, logged, guarded}

pub expired-Reach : (now : ℕ) → Keeps Reach (check_expired now)
unfolding check_expired get_need_expired_orders get_need_expired_orders2 perform
expired-Reach now = next (reads _) (λ list.
    also (each (λ v. writes (Write.order_expired v.order_id)) list)
      (next (reads _) (λ list2. each (λ v. writes (Write.order_expired v.order_id)) list2)))

pub un_refund-Reach : Keeps Reach do_check_closed_and_un_refund
unfolding do_check_closed_and_un_refund get_closed_and_un_refund_orders perform
un_refund-Reach = next (reads _) (λ list. each (λ v. writes (Write.pay_to_refund v.order_id)) list)

pub coupon-Reach : Keeps Reach do_reset_coupon
unfolding do_reset_coupon get_used_coupon_not_checked perform
coupon-Reach = next (reads _) (λ res.
    also (guarded _ (writes (Write.coupon_reset (failed_coupon_order_id res))))
      (guarded _ (writes (Write.coupon_checked (success_coupon_order_id res)))))

pub rejected-Reach :
    (d : Driver) (client : Client) (now : ℕ) → Keeps Reach (do_tx_rejected d client now)
unfolding do_tx_rejected get_maybe_rejected_register_txs perform
rejected-Reach d client now =
    next (reads _) (λ list.
      each (λ v. guarded _ (logged (writes (Write.tx_rejected d v.action v.order_id)))) list)

confirm_id-Reach : (o : Option ℕ) (v : TransactionInfo) → Keeps Reach (confirm_id o v)
unfolding perform
confirm_id-Reach none v = rest (ok tt)
confirm_id-Reach (some id) v = writes (Write.pending_confirmed id v.block_number v.block_timestamp)

check_list-Reach :
    (txs : List Name → List TransactionInfo) (limit : ℕ) (list : List PendingInfo)
    → Keeps Reach (check_list txs limit list)
check_list-Reach txs limit [] = rest (ok limit)
check_list-Reach txs limit (p ∷ ps) = also (each (λ v. confirm_id-Reach _ v) _) (rest _)

pub pending-Reach :
    (txs : List Name → List TransactionInfo) (limit : ℕ) → Keeps Reach (check_pending txs limit)
unfolding check_pending get_pending_list
pending-Reach txs limit = next (reads _) (λ list. check_list-Reach txs limit list)

confirm_at-Reach : (id : ℕ) (b : Option (ℕ × ℕ)) → Keeps Reach (confirm_at id b)
unfolding perform
confirm_at-Reach id none = rest (ok tt)
confirm_at-Reach id (some (n, t)) = logged (writes (Write.pending_confirmed id n t))

check_row-Reach :
    (client : Client) (v : PendingInfo) (s : Option ChainStatus) (ids : List ℕ)
    → Keeps Reach (check_row client v s ids)
check_row-Reach client v none ids = rest _
check_row-Reach client v (some ChainStatus.rejected) ids = rest _
check_row-Reach client v (some ChainStatus.committed) ids =
    also (confirm_at-Reach v.id (client.block_of v.outpoint)) (rest (ok ids))
check_row-Reach client v (some ChainStatus.pending) ids = rest _
check_row-Reach client v (some ChainStatus.proposed) ids = rest _
check_row-Reach client v (some ChainStatus.unknown) ids = rest _

reject_ids-Reach : (ids : List ℕ) → Keeps Reach (reject_ids ids)
unfolding perform
reject_ids-Reach [] = rest _
reject_ids-Reach (i ∷ is) = writes (Write.pending_rejected (i ∷ is))

bind_ids-Reach :
    (k : List ℕ → Exec (List ℕ))
    → ((ids : List ℕ) → Keeps Reach (k ids))
    → (w : World) (p : Result (List ℕ) × World) → Reach w.db p.1.db
    → Reach w.db (bind_ids p k).1.db
bind_ids-Reach k keep w (ok ids, w') first =
    Reach-Preorder.join w.db w'.db (k ids w').1.db first ((keep ids).kept w')
bind_ids-Reach k keep w (err e, w') first = first

check_rows-Reach :
    (client : Client) (list : List PendingInfo) (ids : List ℕ)
    → Keeps Reach (check_rows client list ids)
unfolding check_rows
check_rows-Reach client [] ids = rest (ok ids)
check_rows-Reach client (v ∷ vs) ids = record {
  kept = λ w.
      bind_ids-Reach (λ ids' w'. check_rows client vs ids' w')
        (λ ids'. check_rows-Reach client vs ids') w
        (check_row client v (client.get_transaction v.outpoint) ids w)
        ((check_row-Reach client v (client.get_transaction v.outpoint) ids).kept w);
}

pub check_rejected-Reach :
    (synced : Bool) (client : Client) (now : ℕ) → Keeps Reach (check_rejected synced client now)
unfolding check_rejected search_maybe_rejected_pending
check_rejected-Reach false client now = rest (err Error.sync_error)
check_rejected-Reach true client now =
    next (reads _) (λ list. next (check_rows-Reach client list []) (λ ids. reject_ids-Reach ids))
