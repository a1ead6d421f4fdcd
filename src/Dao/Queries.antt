-- ===== src/Dao/Queries.antt =====
-- dao/t_das_order_info.go, dao/t_das_order_pay_info.go, dao/t_das_order_tx_info.go and
-- dao/t_account_info.go, the reads. Rows stand in the order of their ids. Times are in milliseconds
-- and are handed in as `now`.
use das_register.Prelude.{
  ℕ, ◌-◌, ◌*◌, Bool, true, false, Option, none, some, List, [], ◌∷◌, not, ◌&&◌, ◌||◌, leb, ltb,
  contains, filter, find?, take, length, nat_coded, ◌==◌, ◌<?◌, if◌then◌else◌,
}
use das_register.Tables.Names.{Name, ChainType, DasAction, das_action_coded}
use das_register.Tables.Order.{
  Order, self, TxStatus, OrderStatus, RegisterStatus, IsDidCell, did_cell_no, did_cell_yes,
  did_cell_coded, order_type_coded, tx_status_coded, order_status_coded, register_status_coded,
}
use das_register.Tables.Pay.{
  PayInfo, OrderTx, OrderTxStatus, OrderTxAction, UniPayRefundStatus, order_tx_status_coded,
  refund_status_coded, order_tx_action_coded,
}
use das_register.Tables.Rest.{AccountInfo}
use das_register.Dao.Store.{Db, Exec, query}
use das_register.Dao.Orders.{is_unpaid_status}

-- ORDER BY order_status, register_status DESC, id DESC: whether a row of a later id comes first.
abbrev pub comes_first : Order → Order → Bool
comes_first later earlier =
    later.order_status <? earlier.order_status
    || later.order_status == earlier.order_status
      && (earlier.register_status <? later.register_status
          || earlier.register_status == later.register_status)

abbrev pub pick : Option Order → List Order → Option Order
pick best [] = best
pick none (o ∷ os) = pick (some o) os
pick (some b) (o ∷ os) = pick (some (if comes_first o b then o else b)) os

-- ... LIMIT 1
abbrev pub first_order : List Order → Option Order
first_order = pick none

abbrev pub is_register_of : Name → Order → Bool
is_register_of account_id o = o.account_id == account_id && o.action == DasAction.apply_register

unfoldable pub get_latest_register_order_by_address : ChainType → Name → Name → Exec (Option Order)
get_latest_register_order_by_address chain_type address account_id = query (λ db. first_order (
    filter (λ o. o.chain_type == chain_type && o.address == address && is_register_of account_id o)
      db.orders))

unfoldable pub get_latest_register_order_by_latest : Name → Exec (Option Order)
get_latest_register_order_by_latest account_id = query (λ db.
    first_order (
      filter (λ o. is_register_of account_id o && o.order_status == OrderStatus.default) db.orders))

unfoldable pub get_latest_register_order_by_self : ChainType → Name → Name → Exec (Option Order)
get_latest_register_order_by_self chain_type address account_id = query (λ db. first_order (
    filter
      (λ o.
        o.chain_type == chain_type
        && o.address == address
        && is_register_of account_id o
        && o.order_type == self
        && o.order_status == OrderStatus.default)
      db.orders))

unfoldable pub get_order_by_order_id : Name → Exec (Option Order)
get_order_by_order_id order_id = query (λ db. find? (λ o. o.order_id == order_id) db.orders)

unfoldable pub get_un_pay_order_count : ChainType → Name → Exec ℕ
get_un_pay_order_count chain_type address = query (λ db. length (
    filter
      (λ o.
        o.chain_type == chain_type
        && o.address == address
        && o.order_status == OrderStatus.default
        && o.pay_status == TxStatus.default)
      db.orders))

abbrev pub needs_send_pay : DasAction → IsDidCell → Order → Bool
needs_send_pay action did_cell o =
    o.action == action
    && o.order_type == self
    && o.pay_status == TxStatus.sending
    && o.order_status == OrderStatus.default
    && o.is_did_cell == did_cell

unfoldable pub get_need_send_pay_order_list : DasAction → Exec (List Order)
get_need_send_pay_order_list action =
    query (λ db. take 20 (filter (needs_send_pay action did_cell_no) db.orders))

unfoldable pub get_need_send_did_cell_order_list : DasAction → DasAction → Exec (List Order)
get_need_send_did_cell_order_list a b = query (λ db.
    take 20
      (filter (λ o. needs_send_pay a did_cell_yes o || needs_send_pay b did_cell_yes o) db.orders))

abbrev needs_pre_register : Order → Bool
needs_pre_register o =
    o.action == DasAction.apply_register
    && o.order_type == self
    && o.pre_register_status == TxStatus.sending
    && o.order_status == OrderStatus.default

unfoldable pub get_need_send_pre_register_tx_order_list : Exec (List Order)
get_need_send_pre_register_tx_order_list =
    query (λ db. take 20 (filter needs_pre_register db.orders))

-- LIMIT 1 with no order: the row of the least id.
unfoldable pub get_pre_registered_order_by_account_id : Name → Exec (Option Order)
get_pre_registered_order_by_account_id account_id = query (λ db.
    find? (λ o. is_register_of account_id o && RegisterStatus.pre_register <? o.register_status)
      db.orders)

abbrev has_pay_row : Name → List PayInfo → Bool
has_pay_row order_id pays = elim (find? (λ p. p.order_id == order_id) pays) [
  | none ↦ false
  | some _ ↦ true
]

abbrev is_unpaid_since : ℕ → Order → Bool
is_unpaid_since timestamp o =
    o.order_type == self
    && is_unpaid_status o.register_status
    && o.order_status == OrderStatus.default
    && ltb o.timestamp timestamp

-- Older than a day, and with no payment row: the LEFT JOIN finds none.
unfoldable pub get_need_expired_orders : ℕ → Exec (List Order)
get_need_expired_orders now = query (λ db.
    filter (λ o. is_unpaid_since (now - 86400000) o && not (has_pay_row o.order_id db.pays))
      db.orders)

-- Older than seven days, whether or not a payment row is there.
unfoldable pub get_need_expired_orders2 : ℕ → Exec (List Order)
get_need_expired_orders2 now = query (λ db. filter (is_unpaid_since (now - 7 * 86400000)) db.orders)

abbrev has_refundable : Name → List PayInfo → Bool
has_refundable order_id pays =
    elim (find?
      (λ p.
        p.order_id == order_id
        && p.status == OrderTxStatus.confirm
        && p.refund_status == TxStatus.default)
      pays) [ none ↦ false | some _ ↦ true ]

-- The JOIN has a row for each payment of an order; only the order's id is used of it, so an order
-- stands here once.
unfoldable pub get_closed_and_un_refund_orders : Exec (List Order)
get_closed_and_un_refund_orders = query (λ db.
    filter
      (λ o.
        o.action == DasAction.apply_register
        && o.order_type == self
        && o.order_status == OrderStatus.closed
        && o.register_status <? RegisterStatus.proposal
        && has_refundable o.order_id db.pays)
      db.orders)

unfoldable pub get_history_ok_orders : List Name → Exec (List Order)
get_history_ok_orders account_ids = query (λ db.
    filter
      (λ o.
        contains o.account_id account_ids
        && o.order_type == self
        && not (o.pay_status == TxStatus.default)
        && o.order_status == OrderStatus.closed)
      db.orders)

-- An empty list of ids returns no row and no error, with no statement sent.
unfoldable pub get_is_uni_pay_info_by_order_ids : List Name → Exec (List Order)
get_is_uni_pay_info_by_order_ids [] = λ w. (das_register.Dao.Store.ok [], w)
get_is_uni_pay_info_by_order_ids (i ∷ ids) =
    query (λ db. filter (λ o. contains o.order_id (i ∷ ids)) db.orders)

unfoldable pub get_need_hedge_order_list : Exec (List Order)
get_need_hedge_order_list =
    query (λ db. filter (λ o. o.order_type == self && o.hedge_status == TxStatus.sending) db.orders)

abbrev pub last_of {ℓ} : {A : Type ℓ} → Option A → List A → Option A
last_of best [] = best
last_of best (x ∷ xs) = last_of (some x) xs

-- ORDER BY id DESC LIMIT 1
unfoldable pub get_pay_info_by_order_id : Name → Exec (Option PayInfo)
get_pay_info_by_order_id order_id = query (λ db.
    last_of none
      (filter (λ p. p.order_id == order_id && not (p.status == OrderTxStatus.rejected)) db.pays))

unfoldable pub get_pay_hash_status_pending_list : ℕ → Exec (List PayInfo)
get_pay_hash_status_pending_list now = query (λ db.
    filter (λ p. leb (now - 86400000) p.timestamp && p.status == OrderTxStatus.default) db.pays)

abbrev pub is_refund : ℕ → UniPayRefundStatus → PayInfo → Bool
is_refund now status p =
    leb (now - 3 * 86400000) p.timestamp
    && p.status == OrderTxStatus.confirm
    && p.uni_pay_refund_status == status

unfoldable pub get_refund_status_refunding_list : ℕ → Exec (List PayInfo)
get_refund_status_refunding_list now =
    query (λ db. filter (is_refund now UniPayRefundStatus.refunding) db.pays)

unfoldable pub get_un_refund_list : ℕ → Exec (List PayInfo)
get_un_refund_list now = query (λ db. filter (is_refund now UniPayRefundStatus.un_refund) db.pays)

-- ORDER BY id DESC: the rows stand in the order of their ids.
abbrev reversed : List OrderTx → List OrderTx → List OrderTx
reversed [] done = done
reversed (t ∷ ts) done = reversed ts (t ∷ done)

unfoldable pub get_order_tx_list_by_order_id : Name → Exec (List OrderTx)
get_order_tx_list_by_order_id order_id =
    query (λ db. reversed (filter (λ t. t.order_id == order_id) db.txs) [])

unfoldable pub get_order_tx_by_hash : OrderTxAction → Name → Exec (Option OrderTx)
get_order_tx_by_hash action hash =
    query (λ db. find? (λ t. t.action == action && t.hash == hash) db.txs)

unfoldable pub get_order_tx_by_action_and_hash_list :
    OrderTxAction → List Name → Exec (List OrderTx)
get_order_tx_by_action_and_hash_list action hash_list =
    query (λ db. filter (λ t. t.action == action && contains t.hash hash_list) db.txs)

unfoldable pub get_order_tx_by_action : Name → OrderTxAction → Exec (Option OrderTx)
get_order_tx_by_action order_id action = query (λ db. last_of none (
    filter (λ t. t.order_id == order_id && t.action == action && t.status == OrderTxStatus.confirm)
      db.txs))

unfoldable pub get_maybe_rejected_register_txs : ℕ → ℕ → Exec (List OrderTx)
get_maybe_rejected_register_txs start end_ = query (λ db.
    filter (λ t. ltb start t.timestamp && ltb t.timestamp end_ && t.status == OrderTxStatus.default)
      db.txs)

unfoldable pub get_account_info_by_account_id : Name → Exec (Option AccountInfo)
get_account_info_by_account_id account_id =
    query (λ db. find? (λ a. a.account_id == account_id) db.accounts)
