-- ===== src/Lifecycle/Sending.antt =====
-- The jobs of txtool/ as sequences of the writes.

use das_register.Prelude.{Bool, true, false, Option, none, some, not, ltb, nat_coded, ◌==◌, ◌+◌}
use das_register.Tables.Names.{Name}
use das_register.Tables.Order.{Order, OrderContent, get_content}
use das_register.Tables.Pay.{apply_register, pre_register, renew_account, OrderTxAction}
use das_register.Dao.Store.{Db, Done, Result, ok, err, Error, World, send_tx, call}
use das_register.Dao.Keeps.{Keeps, call-Keeps}
use das_register.Dao.Queries.{
  get_need_send_pay_order_list, get_need_send_pre_register_tx_order_list,
  get_need_send_did_cell_order_list, get_pre_registered_order_by_account_id, get_order_tx_by_action,
  get_account_info_by_account_id,
}
use das_register.TxTool.Register.{
  Chain, Sent, from_option, require, is_preceded, is_on_cross, is_reboot_tx_ok, do_order_apply_tx,
  do_order_apply_txs, send_pre_register, do_order_pre_register_tx, do_order_pre_register_txs,
  do_order_renew_tx, do_order_renew_txs, do_did_cell_order, do_did_cell_tx, apply_sent,
  pre_register_sent, check_waiting, skip_error, renew_sent, tx_action_of, did_cell_sent,
  new_order_tx,
}
use das_register.Lifecycle.Writes.{Write, perform, Reach}
use das_register.Lifecycle.Chain.{
  Reach-Preorder, writes, reads, next, also, each, rest, either, logged,
}

require-Reach : (b : Bool) (e : Error) → Keeps Reach (require b e)
require-Reach true e = rest (ok tt)
require-Reach false e = rest (err e)

from_option-Reach : {A : Type 0} (o : Option A) (e : Error) → Keeps Reach (from_option o e)
from_option-Reach none e = rest (err e)
from_option-Reach (some a) e = rest (ok a)

sends : (a : OrderTxAction) (id : Name) → Keeps Reach (call (send_tx a id))
sends a id = call-Keeps Reach Reach-Preorder (send_tx a id)

apply_sent-Reach :
    (chain : Chain) (order : Order) (s : Sent) → Keeps Reach (apply_sent chain order s)
unfolding perform
apply_sent-Reach chain order (Sent.hash h) =
    logged (writes (Write.tx_created (new_order_tx chain order apply_register h)))
apply_sent-Reach chain order Sent.error_35_53 =
    also (logged (writes (Write.pay_unsent order.order_id))) (rest (err Error.send_failed))
apply_sent-Reach chain order Sent.failed =
    also (logged (writes (Write.pay_unsent order.order_id))) (rest (err Error.send_failed))

apply_tx-Reach : (chain : Chain) (order : Order) → Keeps Reach (do_order_apply_tx chain order)
unfolding do_order_apply_tx get_pre_registered_order_by_account_id perform
apply_tx-Reach chain order = also (require-Reach (not (order.id == 0)) Error.not_found) (
    also (require-Reach (chain.build order) Error.build_failed) (
      next (reads _) (λ pre.
        either (is_preceded chain pre) (writes (Write.to_refund order.order_id)) (
          also (writes (Write.pay_sent order.order_id)) (
            also (sends apply_register order.order_id)
              (apply_sent-Reach chain order (chain.send order)))))))

pub apply-Reach : (chain : Chain) → Keeps Reach (do_order_apply_txs chain)
unfolding do_order_apply_txs get_need_send_pay_order_list
apply-Reach chain =
    either (not (is_reboot_tx_ok chain)) (rest (ok tt))
      (next (reads _) (λ list. each (λ o. apply_tx-Reach chain o) list))

pre_sent-Reach :
    (chain : Chain) (order : Order) (s : Sent) → Keeps Reach (pre_register_sent chain order s)
unfolding perform
pre_sent-Reach chain order (Sent.hash h) =
    logged (writes (Write.tx_created (new_order_tx chain order pre_register h)))
pre_sent-Reach chain order Sent.error_35_53 =
    logged (writes (Write.closed_and_refund order.order_id))
pre_sent-Reach chain order Sent.failed =
    also (logged (writes (Write.pre_register_unsent order.order_id))) (rest (err Error.send_failed))

send_pre-Reach :
    (chain : Chain) (order : Order) (content : OrderContent)
    → Keeps Reach (send_pre_register chain order content)
unfolding send_pre_register get_pre_registered_order_by_account_id perform
send_pre-Reach chain order content =
    also (require-Reach (chain.scripts_found content) Error.chain_error) (
      also (require-Reach (chain.build order) Error.build_failed) (
        next (reads _) (λ pre.
          either (is_preceded chain pre) (writes (Write.to_refund order.order_id)) (
            also (writes (Write.pre_register_sent order.order_id)) (
              also (sends pre_register order.order_id)
                (pre_sent-Reach chain order (chain.send order)))))))

waiting-Reach :
    (chain : Chain) (order : Order) (content : OrderContent) (hash : Name)
    → Keeps Reach (check_waiting chain order content hash)
waiting-Reach chain order content hash =
    next (rest chain.apply_min_waiting_block_number) (λ min_waiting.
      next (rest chain.tip_block_number) (λ tip.
        next (rest (chain.block_number_of hash)) (λ apply_block.
          either (ltb tip (apply_block + min_waiting)) (rest (ok tt))
            (send_pre-Reach chain order content))))

pre_tx-Reach : (chain : Chain) (order : Order) → Keeps Reach (do_order_pre_register_tx chain order)
unfolding do_order_pre_register_tx get_order_tx_by_action perform
pre_tx-Reach chain order = also (require-Reach (not (order.id == 0)) Error.not_found) (
    next (from_option-Reach (get_content order.content) Error.bad_content) (λ content.
      next (reads _) (λ found. next (from_option-Reach found Error.not_found) (λ tx.
        next (rest (chain.is_live tx.hash)) (λ live.
          either (not live) (writes (Write.redo_apply order.order_id))
            (waiting-Reach chain order content tx.hash))))))

skipped-Reach :
    (chain : Chain) (db : Db) (p : Result Done × World)
    → Reach db p.1.db
    → Reach db (skip_error chain p).1.db
skipped-Reach chain db (ok a, w) r = r
skipped-Reach chain db (err e, w) r = r

pub pre_register-Reach : (chain : Chain) → Keeps Reach (do_order_pre_register_txs chain)
unfolding do_order_pre_register_txs get_need_send_pre_register_tx_order_list
pre_register-Reach chain = either (not (is_reboot_tx_ok chain)) (rest (ok tt)) (
    next (reads _) (λ list.
      each
        (λ o. record {
          kept = λ w.
              skipped-Reach chain w.db (do_order_pre_register_tx chain o w)
                ((pre_tx-Reach chain o).kept w);
        })
        list))

renew_sent-Reach :
    (chain : Chain) (order : Order) (s : Sent) → Keeps Reach (renew_sent chain order s)
unfolding perform
renew_sent-Reach chain order (Sent.hash h) =
    logged (writes (Write.tx_created (new_order_tx chain order renew_account h)))
renew_sent-Reach chain order Sent.error_35_53 =
    also (logged (writes (Write.pay_unsent order.order_id))) (rest (err Error.send_failed))
renew_sent-Reach chain order Sent.failed =
    also (logged (writes (Write.pay_unsent order.order_id))) (rest (err Error.send_failed))

renew_tx-Reach : (chain : Chain) (order : Order) → Keeps Reach (do_order_renew_tx chain order)
unfolding do_order_renew_tx get_account_info_by_account_id perform
renew_tx-Reach chain order = also (require-Reach (not (order.id == 0)) Error.not_found) (
    next (from_option-Reach (get_content order.content) Error.bad_content) (λ content.
      next (reads _) (λ acc.
        either (is_on_cross acc) (writes (Write.status_closed order.order_id)) (
          also (require-Reach (chain.build order) Error.build_failed) (
            also (writes (Write.pay_sent order.order_id)) (
              also (sends renew_account order.order_id)
                (renew_sent-Reach chain order (chain.send order))))))))

pub renew-Reach : (chain : Chain) → Keeps Reach (do_order_renew_txs chain)
unfolding do_order_renew_txs get_need_send_pay_order_list
renew-Reach chain =
    either (not (is_reboot_tx_ok chain)) (rest (ok tt))
      (next (reads _) (λ list. each (λ o. renew_tx-Reach chain o) list))

did_sent-Reach : (chain : Chain) (v : Order) (s : Sent) → Keeps Reach (did_cell_sent chain v s)
unfolding perform
did_sent-Reach chain v (Sent.hash h) =
    logged (writes (Write.tx_created (new_order_tx chain v (tx_action_of v.action) h)))
did_sent-Reach chain v Sent.error_35_53 =
    also (logged (writes (Write.did_cell_to_refund v.order_id))) (rest (err Error.send_failed))
did_sent-Reach chain v Sent.failed =
    also (logged (writes (Write.did_cell_to_refund v.order_id))) (rest (err Error.send_failed))

did_order-Reach : (chain : Chain) (v : Order) → Keeps Reach (do_did_cell_order chain v)
unfolding do_did_cell_order perform
did_order-Reach chain v = also (require-Reach (chain.did_cell_tx v.order_id) Error.cache_error) (
    also (writes (Write.pay_sent v.order_id))
      (also (sends (tx_action_of v.action) v.order_id) (did_sent-Reach chain v (chain.send v))))

pub did_cell-Reach : (chain : Chain) → Keeps Reach (do_did_cell_tx chain)
unfolding do_did_cell_tx get_need_send_did_cell_order_list
did_cell-Reach chain = next (reads _) (λ list. each (λ v. did_order-Reach chain v) list)
