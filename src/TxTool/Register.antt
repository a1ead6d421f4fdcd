-- ===== src/TxTool/Register.antt =====
-- txtool/apply.go, txtool/pre_register.go, txtool/renew.go and txtool/did_cell.go: the transactions
-- that the service sends for paid orders, as the changes to the order tables around each of them.
-- What the transactions hold is built with das-lib; here it is a parameter whether that succeeds.
use das_register.Prelude.{
  ℕ, ◌+◌, ◌/◌, Bool, true, false, Option, none, some, not, ltb, nat_coded, ◌==◌, if◌then◌else◌,
}
use das_register.Tables.Names.{Name, DasAction}
use das_register.Tables.Order.{Order, OrderContent, get_content, TxStatus}
use das_register.Tables.Pay.{
  OrderTx, OrderTxStatus, OrderTxAction, apply_register, pre_register, renew_account,
  transfer_account,
}
use das_register.Tables.Rest.{AccountInfo, AccountStatus, account_status_coded}
use das_register.Dao.Store.{
  Done, Exec, Result, ok, err, Error, World, pure, raise, ◌>>=◌, ◌>>◌, log_error, for_each, call,
  send_tx,
}
use das_register.Dao.Orders.{
  update_order_to_refund, update_pay_status, update_pre_register_status, update_order_redo_apply,
  update_order_to_closed_and_refund, update_order_status_closed, update_did_cell_order_to_refund,
}
use das_register.Dao.Payments.{create_order_tx}
use das_register.Dao.Queries.{
  get_need_send_pay_order_list, get_need_send_pre_register_tx_order_list,
  get_need_send_did_cell_order_list, get_pre_registered_order_by_account_id, get_order_tx_by_action,
  get_account_info_by_account_id,
}

-- What `SendTransaction` returns: the hash, the contract's error 35 or 53, or another error.
pub data Sent : Type 0 where
  hash : Name → Sent
  error_35_53 : Sent
  failed : Sent

-- What the tool reads of the chain, the cache and the clock. `now` is in milliseconds.
pub record Chain : Type 0 where
  pub now : ℕ
  -- the seconds since the tool was started (`RebootTime`)
  pub reboot_seconds : ℕ
  pub build : Order → Bool
  pub send : Order → Sent
  -- `GetLiveCell` of the first output of a transaction: whether its status is "live"
  pub is_live : Name → Result Bool
  pub apply_min_waiting_block_number : Result ℕ
  pub tip_block_number : Result ℕ
  pub block_number_of : Name → Result ℕ
  -- `getOrderInviterChannelScript` and `HexToScript` succeed
  pub scripts_found : OrderContent → Bool
  pub did_cell_tx : Name → Bool
  -- the two texts of `doOrderPreRegisterTx`, at which the loop goes on with the next order
  pub is_skipped : Error → Bool

abbrev pub from_result : {A : Type 0} → Result A → Exec A
from_result r w = (r, w)

abbrev pub from_option : {A : Type 0} → Option A → Error → Exec A
from_option none e = raise e
from_option (some a) e = pure a

abbrev pub require : Bool → Error → Exec Done
require true e = pure tt
require false e = raise e

-- `IsRebootTxOK`
unfoldable pub is_reboot_tx_ok : Chain → Bool
is_reboot_tx_ok chain = ltb 60 chain.reboot_seconds

-- The transaction of an order that was just sent.
abbrev pub new_order_tx : Chain → Order → OrderTxAction → Name → OrderTx
new_order_tx chain order action tx_hash = record {
  id = 0;
  order_id = order.order_id;
  hash = tx_hash;
  action = action;
  status = OrderTxStatus.default;
  timestamp = chain.now;
}

-- Another order has registered the account to the proposal stage, less than thirty days ago.
abbrev pub is_preceded : Chain → Option Order → Bool
is_preceded chain none = false
is_preceded chain (some pre_order) = ltb (chain.now / 1000) (pre_order.timestamp / 1000 + 2592000)

abbrev pub apply_sent : Chain → Order → Sent → Exec Done
apply_sent chain order (Sent.hash h) =
    log_error (create_order_tx (new_order_tx chain order apply_register h))
apply_sent chain order _ = do
  log_error (update_pay_status order.order_id TxStatus.ok TxStatus.sending)
  raise Error.send_failed

-- `DoOrderApplyTx`. The transaction that was built is dropped when the account is taken.
unfoldable pub do_order_apply_tx : Chain → Order → Exec Done
do_order_apply_tx chain order = do
  require (not (order.id == 0)) Error.not_found
  require (chain.build order) Error.build_failed
  pre_order ← get_pre_registered_order_by_account_id order.account_id
  if is_preceded chain pre_order then update_order_to_refund order.order_id else do
    update_pay_status order.order_id TxStatus.sending TxStatus.ok
    call (send_tx apply_register order.order_id)
    apply_sent chain order (chain.send order)

unfoldable pub do_order_apply_txs : Chain → Exec Done
unfolding do_order_apply_tx is_reboot_tx_ok for_each
do_order_apply_txs chain = if not (is_reboot_tx_ok chain) then pure tt else do
  list ← get_need_send_pay_order_list DasAction.apply_register
  for_each (do_order_apply_tx chain) list

abbrev pub pre_register_sent : Chain → Order → Sent → Exec Done
pre_register_sent chain order (Sent.hash h) =
    log_error (create_order_tx (new_order_tx chain order pre_register h))
pre_register_sent chain order Sent.error_35_53 =
    log_error (update_order_to_closed_and_refund order.order_id)
pre_register_sent chain order Sent.failed = do
  log_error (update_pre_register_status order.order_id TxStatus.ok TxStatus.sending)
  raise Error.send_failed

-- The end of `DoOrderPreRegisterTx`, once the apply cell has waited long enough.
unfoldable pub send_pre_register : Chain → Order → OrderContent → Exec Done
send_pre_register chain order content = do
  require (chain.scripts_found content) Error.chain_error
  require (chain.build order) Error.build_failed
  pre_order ← get_pre_registered_order_by_account_id order.account_id
  if is_preceded chain pre_order then update_order_to_refund order.order_id else do
    update_pre_register_status order.order_id TxStatus.sending TxStatus.ok
    call (send_tx pre_register order.order_id)
    pre_register_sent chain order (chain.send order)

abbrev pub check_waiting : Chain → Order → OrderContent → Name → Exec Done
check_waiting chain order content apply_hash = do
  min_waiting ← from_result chain.apply_min_waiting_block_number
  tip ← from_result chain.tip_block_number
  apply_block ← from_result (chain.block_number_of apply_hash)
  if ltb tip (apply_block + min_waiting) then pure tt else send_pre_register chain order content

-- `DoOrderPreRegisterTx`. When the apply cell is gone the order is sent back to be applied again.
unfoldable pub do_order_pre_register_tx : Chain → Order → Exec Done
unfolding send_pre_register get_content
do_order_pre_register_tx chain order = do
  require (not (order.id == 0)) Error.not_found
  content ← from_option (get_content order.content) Error.bad_content
  found ← get_order_tx_by_action order.order_id apply_register
  order_tx_apply ← from_option found Error.not_found
  live ← from_result (chain.is_live order_tx_apply.hash)
  if not live
      then update_order_redo_apply order.order_id
      else check_waiting chain order content order_tx_apply.hash

abbrev pub skip_error : Chain → Result Done × World → Result Done × World
skip_error chain (ok a, w) = (ok a, w)
skip_error chain (err e, w) = (if chain.is_skipped e then ok tt else err e, w)

unfoldable pub do_order_pre_register_txs : Chain → Exec Done
unfolding do_order_pre_register_tx is_reboot_tx_ok for_each
do_order_pre_register_txs chain = if not (is_reboot_tx_ok chain) then pure tt else do
  list ← get_need_send_pre_register_tx_order_list
  for_each (λ o w. skip_error chain (do_order_pre_register_tx chain o w)) list

abbrev pub is_on_cross : Option AccountInfo → Bool
is_on_cross none = false
is_on_cross (some acc) = acc.status == AccountStatus.on_cross

abbrev pub renew_sent : Chain → Order → Sent → Exec Done
renew_sent chain order (Sent.hash h) =
    log_error (create_order_tx (new_order_tx chain order renew_account h))
renew_sent chain order _ = do
  log_error (update_pay_status order.order_id TxStatus.ok TxStatus.sending)
  raise Error.send_failed

-- `DoOrderRenewTx`; the account is looked up by the id of `order.Account`, which is the column
-- `account_id` of the order.
unfoldable pub do_order_renew_tx : Chain → Order → Exec Done
unfolding get_content
do_order_renew_tx chain order = do
  require (not (order.id == 0)) Error.not_found
  content ← from_option (get_content order.content) Error.bad_content
  acc ← get_account_info_by_account_id order.account_id
  if is_on_cross acc then update_order_status_closed order.order_id else do
    require (chain.build order) Error.build_failed
    update_pay_status order.order_id TxStatus.sending TxStatus.ok
    call (send_tx renew_account order.order_id)
    renew_sent chain order (chain.send order)

unfoldable pub do_order_renew_txs : Chain → Exec Done
unfolding do_order_renew_tx is_reboot_tx_ok for_each
do_order_renew_txs chain = if not (is_reboot_tx_ok chain) then pure tt else do
  list ← get_need_send_pay_order_list DasAction.renew_account
  for_each (do_order_renew_tx chain) list

-- `tables.OrderTxAction(v.Action)`
abbrev pub tx_action_of : DasAction → OrderTxAction
tx_action_of DasAction.transfer_account = transfer_account
tx_action_of DasAction.renew_account = renew_account
tx_action_of DasAction.apply_register = apply_register
tx_action_of _ = OrderTxAction.unnamed 0

-- A did cell order whose transaction fails is closed, and its payment is to be refunded.
abbrev pub did_cell_sent : Chain → Order → Sent → Exec Done
did_cell_sent chain v (Sent.hash h) =
    log_error (create_order_tx (new_order_tx chain v (tx_action_of v.action) h))
did_cell_sent chain v _ = do
  log_error (update_did_cell_order_to_refund v.order_id)
  raise Error.send_failed

unfoldable pub do_did_cell_order : Chain → Order → Exec Done
do_did_cell_order chain v = do
  require (chain.did_cell_tx v.order_id) Error.cache_error
  update_pay_status v.order_id TxStatus.sending TxStatus.ok
  call (send_tx (tx_action_of v.action) v.order_id)
  did_cell_sent chain v (chain.send v)

unfoldable pub do_did_cell_tx : Chain → Exec Done
unfolding do_did_cell_order for_each
do_did_cell_tx chain = do
  list ← get_need_send_did_cell_order_list DasAction.transfer_account DasAction.renew_account
  for_each (do_did_cell_order chain) list
