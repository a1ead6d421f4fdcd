-- ===== src/Dao/Proposals.antt =====
-- dao/t_das_order_info.go, `DoActionConfirmProposal`: what one proposal does to each row.
use das_register.Prelude.{
  Bool, true, false, List, [], ◌∷◌, ◌≡◌, refl, ap, some, map, contains, not_in, ◌&&◌, ◌==◌,
  nat_coded, if◌then◌else◌,
}
use das_register.Tables.Names.{Name}
use das_register.Tables.Order.{
  Order, self, TxStatus, OrderStatus, RegisterStatus, order_type_coded, tx_status_coded,
}
use das_register.Tables.Pay.{PayInfo, OrderTx, UniPayRefundStatus}
use das_register.Dao.Store.{Statement, World, Outcome, ◌then◌, transaction-does}
use das_register.Dao.Rows.{Driver, upsert_all_txs}
use das_register.Dao.Orders.{do_action_confirm_proposal}

-- The order is registered if it was proposed; it is closed if its account is one of the proposal's;
-- and an order of the service itself that was proposed is hedged, if it was not before.
abbrev pub confirmed_order : List Name → List Name → Order → Order
confirmed_order order_ids account_ids o = record o {
  register_status =
      if contains o.order_id order_ids then RegisterStatus.registered else o.register_status;
  order_status = if contains o.account_id account_ids then OrderStatus.closed else o.order_status;
  hedge_status =
      if contains o.order_id order_ids && o.order_type == self && o.hedge_status == TxStatus.default
      then TxStatus.sending
      else o.hedge_status;
}

-- A payment for one of the accounts is marked for a refund, unless its order is one of those that
-- got the account, or it was marked before.
abbrev pub confirmed_pay : List Name → List Name → PayInfo → PayInfo
confirmed_pay ok_order_ids account_ids p =
    if contains p.account_id account_ids
      && not_in p.order_id ok_order_ids
      && p.refund_status == TxStatus.default
    then record p {
      refund_status = TxStatus.sending;
      uni_pay_refund_status = UniPayRefundStatus.un_refund;
    }
    else p

-- The statement that does all of it at once, for transactions that are at hand.
abbrev pub confirmed : List Name → List Name → List Name → OrderTx → List OrderTx → Statement
confirmed order_ids ok_order_ids account_ids t ts db = some (record db {
  orders = map (confirmed_order order_ids account_ids) db.orders;
  pays = map (confirmed_pay ok_order_ids account_ids) db.pays;
  txs = upsert_all_txs (t ∷ ts) db.txs;
})

abbrev registered_row : List Name → Order → Order
registered_row order_ids o =
    if contains o.order_id order_ids
    then record o { register_status = RegisterStatus.registered }
    else o

abbrev closed_row : List Name → Order → Order
closed_row account_ids o =
    if contains o.account_id account_ids then record o { order_status = OrderStatus.closed } else o

abbrev hedged_row : List Name → Order → Order
hedged_row order_ids o =
    if contains o.order_id order_ids && o.order_type == self && o.hedge_status == TxStatus.default
    then record o { hedge_status = TxStatus.sending }
    else o

row_eq :
    (ids accs : List Name) (o : Order) (a b c : Bool)
    → contains o.order_id ids ≡ a
    → contains o.account_id accs ≡ b
    → o.order_type == self && o.hedge_status == TxStatus.default ≡ c
    → hedged_row ids (closed_row accs (registered_row ids o)) ≡ confirmed_order ids accs o
row_eq ids accs o true true true e f g = simp (e, f, g)
row_eq ids accs o true true false e f g = simp (e, f, g)
row_eq ids accs o true false true e f g = simp (e, f, g)
row_eq ids accs o true false false e f g = simp (e, f, g)
row_eq ids accs o false true c e f g = simp (e, f)
row_eq ids accs o false false c e f g = simp (e, f)

orders_eq :
    (ids accs : List Name) (rows : List Order)
    → map (hedged_row ids) (map (closed_row accs) (map (registered_row ids) rows))
      ≡ map (confirmed_order ids accs) rows
orders_eq ids accs [] = refl
orders_eq ids accs (o ∷ rows) =
    let first : hedged_row ids (closed_row accs (registered_row ids o))
        ≡ confirmed_order ids accs o =
      row_eq ids accs o (contains o.order_id ids) (contains o.account_id accs)
        (o.order_type == self && o.hedge_status == TxStatus.default) refl refl refl in
    cc (first, orders_eq ids accs rows)

-- `DoActionConfirmProposal` does all of its five updates or, when it returns an error, none: a
-- proposed order is registered and hedged once, every order for one of the accounts is closed, and
-- every payment for one of the accounts is marked for a refund, except those of the orders that got
-- the account; an error has a fault behind it.
pub do_action_confirm_proposal_lem :
    (driver : Driver) (order_ids ok_order_ids account_ids : List Name) (t : OrderTx)
    (ts : List OrderTx) (w : World)
    → Outcome
        (confirmed order_ids ok_order_ids account_ids t ts)
        w
        (do_action_confirm_proposal driver order_ids ok_order_ids account_ids (t ∷ ts) w)
unfolding do_action_confirm_proposal
do_action_confirm_proposal_lem driver order_ids ok_order_ids account_ids t ts w =
    transaction-does _ (confirmed order_ids ok_order_ids account_ids t ts) w (
      ap
        (λ rows. some (record w.db {
          orders = rows;
          pays = map (confirmed_pay ok_order_ids account_ids) w.db.pays;
          txs = upsert_all_txs (t ∷ ts) w.db.txs;
        }))
        (orders_eq order_ids account_ids w.db.orders))
