-- ===== src/BlockParser/Handlers.antt =====
-- block_parser/action_*.go: what each action of a transaction on the chain does to the tables. The
-- notifications and the cache of outpoints are left out.
use das_register.Prelude.{
  ℕ, Bool, true, false, Option, none, some, List, [], ◌∷◌, ◌++◌, not, map, nat_coded, if◌then◌else◌,
}
use das_register.Tables.Names.{Name, DasAction}
use das_register.Tables.Order.{
  Order, other, Content, TxStatus, OrderStatus, RegisterStatus, uni_pay_false, did_cell_no,
}
use das_register.Tables.Names.{PayTokenId}
use das_register.Tables.Pay.{
  OrderTx, OrderTxStatus, OrderTxAction, apply_register, pre_register, propose, confirm_proposal,
  renew_account,
}
use das_register.Tables.Rest.{AccountInfo}
use das_register.Dao.Store.{Done, Exec, Result, World, ok, err, pure, ◌>>=◌, ◌>>◌, query}
use das_register.Dao.Orders.{
  create_order_and_order_txs, do_action_propose, do_action_confirm_proposal,
  do_action_apply_register, do_action_pre_register, do_action_renew_account,
}
use das_register.Dao.Others.{update_pending_status_to_confirm}
use das_register.Dao.Queries.{
  get_order_tx_by_hash, get_order_tx_by_action_and_hash_list, get_history_ok_orders,
  get_order_by_order_id, get_account_info_by_account_id,
}
use das_register.TxTool.Register.{from_result}
use das_register.BlockParser.Tx.{
  AccountCell, ContractName, apply_register_cell_type, pre_account_cell_type, proposal_cell_type,
  config_cell_type, account_cell_type, Tx, Env,
}

-- The fields of `FuncTransactionHandleReq` that the handlers use.
pub record Req : Type 0 where
  pub tx : Tx
  pub block_number : ℕ
  pub block_timestamp : ℕ
  pub action : DasAction

-- A transaction that has no output of the contract's current version is passed over.
abbrev pub if_current_version : Req → ContractName → Exec Done → Exec Done
if_current_version req name body = do
  is_cv ← from_result (req.tx.is_current_version_tx name)
  if not is_cv then pure tt else body

abbrev confirmed_tx : Req → OrderTxAction → Name → Name → OrderTx
confirmed_tx req action order_id hash = record {
  id = 0;
  order_id = order_id;
  hash = hash;
  action = action;
  status = OrderTxStatus.confirm;
  timestamp = req.block_timestamp;
}

-- The order of somebody else's service, as the parser finds it on the chain.
abbrev pub other_order : Env → Req → AccountCell → DasAction → RegisterStatus → OrderStatus → Order
other_order env req cell action register_status order_status = record {
  id = 0;
  order_type = other;
  order_id =
      env.create_order_id other cell.account_id action cell.chain_type cell.address_hex
        req.block_timestamp;
  account_id = cell.account_id;
  account = cell.account;
  action = action;
  chain_type = cell.chain_type;
  address = cell.address_hex;
  timestamp = req.block_timestamp;
  pay_token_id = PayTokenId.unnamed 0;
  pay_type = 0;
  pay_amount = 0;
  content = Content.empty;
  pay_status = TxStatus.default;
  hedge_status = TxStatus.default;
  pre_register_status = TxStatus.default;
  register_status = register_status;
  order_status = order_status;
  coin_type = 0;
  cross_coin_type = 0;
  is_uni_pay = uni_pay_false;
  premium_percentage = 0;
  premium_base = 0;
  premium_amount = 0;
  is_did_cell = did_cell_no;
}

-- `resp.Err` is set by a failed `GetOrderByOrderId`, and the handler goes on: what it returns is that
-- error, unless a later step sets its own.
abbrev pub with_error : Result (Option Order) → Result Done × World → Result Done × World
with_error found (err e, w) = (err e, w)
with_error (ok _) (ok _, w) = (ok tt, w)
with_error (err e) (ok _, w) = (err e, w)

abbrev pub after_get_order : Name → Exec Done → Exec Done
after_get_order order_id k w =
    let (found, w') = get_order_by_order_id order_id w in with_error found (k w')

abbrev pub apply_found : Option OrderTx → Exec Done
apply_found none = pure tt
apply_found (some order_tx) =
    after_get_order order_tx.order_id (do_action_apply_register order_tx.order_id order_tx.hash)

unfoldable pub action_apply_register : Req → Exec Done
action_apply_register req =
    if_current_version req apply_register_cell_type
      do order_tx ← get_order_tx_by_hash apply_register req.tx.tx_hash; apply_found order_tx

abbrev is_found {ℓ} : {A : Type ℓ} → Option A → Bool
is_found none = false
is_found (some a) = true

-- An account that is already registered closes the order at once.
abbrev pub pre_found : Env → Req → Option OrderTx → Exec Done
pre_found env req (some order_tx) =
    after_get_order order_tx.order_id (do_action_pre_register order_tx.order_id order_tx.hash)
pre_found env req none = do
  cell ← from_result req.tx.pre_account
  acc ← get_account_info_by_account_id cell.account_id
  let order =
      other_order env req cell DasAction.apply_register RegisterStatus.proposal
        (if is_found acc then OrderStatus.closed else OrderStatus.default)
  create_order_and_order_txs env.driver order (
      confirmed_tx req apply_register order.order_id req.tx.first_input_hash
      ∷ confirmed_tx req pre_register order.order_id req.tx.tx_hash
      ∷ [])

unfoldable pub action_pre_register : Env → Req → Exec Done
action_pre_register env req =
    if_current_version req pre_account_cell_type
      do order_tx ← get_order_tx_by_hash pre_register req.tx.tx_hash; pre_found env req order_tx

unfoldable pub action_propose : Env → Req → Exec Done
action_propose env req = if_current_version req proposal_cell_type do
  pre_hash_list ← from_result req.tx.pre_hash_list
  list ← get_order_tx_by_action_and_hash_list pre_register pre_hash_list
  do_action_propose env.driver (map (λ v. v.order_id) list)
      (map (λ v. confirmed_tx req propose v.order_id req.tx.tx_hash) list)

-- `GetAccountInfoByAccountIds`; the accounts are only named in the notification.
abbrev pub get_inviters : Exec (List AccountInfo)
get_inviters = query (λ db. db.accounts)

unfoldable pub action_confirm_proposal : Env → Req → Exec Done
action_confirm_proposal env req = if_current_version req account_cell_type do
  propose_hash ← from_result req.tx.propose_hash
  list ← get_order_tx_by_action_and_hash_list propose (propose_hash ∷ [])
  account_ids ← from_result req.tx.pre_account_ids
  from_result req.tx.accounts
  ok_orders ← get_history_ok_orders account_ids
  get_inviters
  do_action_confirm_proposal env.driver (map (λ v. v.order_id) list)
      (map (λ o. o.order_id) ok_orders ++ map (λ v. v.order_id) list) account_ids
      (map (λ v. confirmed_tx req confirm_proposal v.order_id req.tx.tx_hash) list)

abbrev pub renew_found : Env → Req → AccountCell → Option OrderTx → Exec Done
renew_found env req cell (some order_tx) =
    after_get_order order_tx.order_id (do_action_renew_account order_tx.order_id req.tx.tx_hash)
renew_found env req cell none =
    let order =
      other_order env req cell DasAction.renew_account RegisterStatus.default OrderStatus.closed in
    create_order_and_order_txs env.driver order
      (confirmed_tx req renew_account order.order_id req.tx.tx_hash ∷ [])

unfoldable pub action_renew_account : Env → Req → Exec Done
action_renew_account env req = if_current_version req account_cell_type do
  from_result req.tx.old_account
  cell ← from_result req.tx.account
  order_tx ← get_order_tx_by_hash renew_account req.tx.tx_hash
  renew_found env req cell order_tx

abbrev pub confirm_pending : Req → Exec Done
confirm_pending req =
    update_pending_status_to_confirm req.action req.tx.outpoint req.block_number req.block_timestamp

-- `ActionEditRecords`, `ActionEditManager` and `ActionTransferAccount`
unfoldable pub action_edit_account : Req → Exec Done
action_edit_account req = if_current_version req account_cell_type (confirm_pending req)

-- The new account cell and its owner are read first; `GetAuctionOrderStatus` only feeds the
-- notification, and returns no error.
unfoldable pub action_bid_expired_account_auction : Req → Exec Done
action_bid_expired_account_auction req =
    if_current_version req account_cell_type do from_result req.tx.account; confirm_pending req

unfoldable pub did_cell_action_update : Req → Exec Done
did_cell_action_update req = confirm_pending req

-- `ActionTransferBalance`, `ActionWithdrawFromWallet` and `ActionTransferPayment`
unfoldable pub action_balance : Req → Exec Done
action_balance req = do
  found ← from_result req.tx.has_das_balance_cell
  if not found then pure tt else confirm_pending req

unfoldable pub action_config_cell : Env → Req → Exec Done
action_config_cell env req =
    if_current_version req config_cell_type (from_result env.async_das_config_cell)

-- `registerTransactionHandle`: the handler of each action; the others have none.
unfoldable pub handle : Env → DasAction → Req → Exec Done
unfolding action_config_cell action_balance action_apply_register action_pre_register action_propose
    action_confirm_proposal action_renew_account action_edit_account
    action_bid_expired_account_auction did_cell_action_update
handle env DasAction.config req = action_config_cell env req
handle env DasAction.transfer_balance req = action_balance req
handle env DasAction.withdraw_from_wallet req = action_balance req
handle env DasAction.transfer req = action_balance req
handle env DasAction.apply_register req = action_apply_register req
handle env DasAction.pre_register req = action_pre_register env req
handle env DasAction.propose req = action_propose env req
handle env DasAction.extend_propose req = action_propose env req
handle env DasAction.confirm_proposal req = action_confirm_proposal env req
handle env DasAction.renew_account req = action_renew_account env req
handle env DasAction.edit_records req = action_edit_account req
handle env DasAction.edit_manager req = action_edit_account req
handle env DasAction.transfer_account req = action_edit_account req
handle env DasAction.bid_expired_account_auction req = action_bid_expired_account_auction req
handle env DasAction.did_cell_update req = did_cell_action_update req
handle env (DasAction.unnamed n) req = pure tt
