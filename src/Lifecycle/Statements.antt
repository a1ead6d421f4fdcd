-- ===== src/Lifecycle/Statements.antt =====
-- The statements of the writes, each of which moves the rows forward only.
use das_register.Prelude.{
  arith, update_where, Bool, true, false, some, List, [], ◌∷◌, ◌≡◌, refl, not, if◌then◌else◌, ◌==◌,
  ◌&&◌, nat_coded,
}
use das_register.Tables.Order.{Order, TxStatus, OrderStatus, tx_status_coded, order_status_coded}
use das_register.Tables.Pay.{
  PayInfo, OrderTx, OrderTxStatus, UniPayRefundStatus, order_tx_status_coded,
}
use das_register.Dao.Store.{Db}
use das_register.Dao.Rows.{
  update_orders, update_pays, has_order, append_order, insert_order, upsert_order, assign_order,
  has_pay, append_pay, insert_pay, insert_ignore_pay, upsert_tx, upsert_txs, Driver,
}
use das_register.Dao.Keeps.{Safe, total-Safe, unless-Safe, provided-Safe}
use das_register.Lifecycle.Rows.{
  OrderStep, PayStep, OrderStep-refl, Progress, Progress-Preorder, orders_refl, pays_refl,
  orders_updated, pays_updated, order_appended, pay_appended, OrdersStep, PaysStep,
}

pub orders-Safe :
    (p : Order → Bool) (f : Order → Order)
    → ((o : Order) → p o ≡ true → OrderStep o (f o))
    → Safe Progress (update_orders p f)
orders-Safe p f step =
    total-Safe Progress Progress-Preorder (λ db. record db { orders = _ })
      (λ db. (orders_updated p f step db.orders, pays_refl db.pays))

pub pays-Safe :
    (p : PayInfo → Bool) (f : PayInfo → PayInfo)
    → ((x : PayInfo) → p x ≡ true → PayStep x (f x))
    → Safe Progress (update_pays p f)
pays-Safe p f step =
    total-Safe Progress Progress-Preorder (λ db. record db { pays = _ })
      (λ db. (orders_refl db.orders, pays_updated p f step db.pays))

pub elsewhere-Safe :
    (g : Db → Db)
    → ((db : Db) → (g db).orders ≡ db.orders)
    → ((db : Db) → (g db).pays ≡ db.pays)
    → Safe Progress (λ db. some (g db))
elsewhere-Safe g orders pays =
    total-Safe Progress Progress-Preorder g
      (λ db. (rw (orders db) (orders_refl db.orders), rw (pays db) (pays_refl db.pays)))

pub upsert_tx-Safe : (t : OrderTx) → Safe Progress (upsert_tx t)
upsert_tx-Safe t = elsewhere-Safe _ (λ db. refl) (λ db. refl)

pub upsert_txs-Safe : (driver : Driver) (ts : List OrderTx) → Safe Progress (upsert_txs driver ts)
upsert_txs-Safe driver [] =
    provided-Safe Progress Progress-Preorder driver.creates_empty_slice some
      (elsewhere-Safe (λ db. db) (λ db. refl) (λ db. refl))
upsert_txs-Safe driver (t ∷ ts) = elsewhere-Safe _ (λ db. refl) (λ db. refl)

pub insert_order-Safe : (o : Order) → Safe Progress (insert_order o)
insert_order-Safe o =
    unless-Safe Progress Progress-Preorder (λ db. has_order o db.orders)
      (λ db. record db { orders = append_order o db.orders })
      (λ db new. (order_appended o db.orders new, pays_refl db.pays))

pub insert_pay-Safe : (p : PayInfo) → Safe Progress (insert_pay p)
insert_pay-Safe p =
    unless-Safe Progress Progress-Preorder (λ db. has_pay p db.pays)
      (λ db. record db { pays = append_pay p db.pays })
      (λ db new. (orders_refl db.orders, pay_appended p db.pays new))

ignored_step :
    (b : Bool) (p : PayInfo) (rows : List PayInfo)
    → has_pay p rows ≡ b
    → PaysStep rows (if b then rows else append_pay p rows)
ignored_step true p rows e = pays_refl rows
ignored_step false p rows e = pay_appended p rows e

pub insert_ignore_pay-Safe : (p : PayInfo) → Safe Progress (insert_ignore_pay p)
insert_ignore_pay-Safe p =
    total-Safe Progress Progress-Preorder _
      (λ db. (orders_refl db.orders, ignored_step (has_pay p db.pays) p db.pays refl))

upserted_step :
    (b : Bool) (o : Order) (rows : List Order)
    → has_order o rows ≡ b
    → OrdersStep rows (
        if b
        then update_where (λ x. x.order_id == o.order_id) (assign_order o) rows
        else append_order o rows)
upserted_step true o rows e = orders_updated _ (assign_order o) (λ x _. OrderStep-refl x) rows
upserted_step false o rows e = order_appended o rows e

pub upsert_order-Safe : (o : Order) → Safe Progress (upsert_order o)
upsert_order-Safe o =
    total-Safe Progress Progress-Preorder _
      (λ db. (upserted_step (has_order o db.orders) o db.orders refl, pays_refl db.pays))

-- What the updates of the columns above do to a row.
pub closed_step : (o : Order) → OrderStep o (record o { order_status = OrderStatus.closed })
closed_step o = (refl, refl, refl, λ _. refl, λ h. h)

pub paid_step : (o : Order) → OrderStep o (record o { pay_status = TxStatus.sending })
paid_step o = (refl, refl, refl, λ h. h, λ _. refl)

pub settled_step : (p : PayInfo) → PayStep p (record p { status = OrderTxStatus.rejected })
settled_step p = (refl, refl, refl, refl, λ _. refl, λ h. h)

pub marked_step :
    (p : PayInfo) (s : UniPayRefundStatus)
    → PayStep p (record p { refund_status = TxStatus.sending; uni_pay_refund_status = s })
marked_step p s = (refl, refl, refl, refl, λ h. h, λ _. refl)

last_true : (a b c d : Bool) → a && b && c ≡ true → not c ≡ true → d ≡ true
last_true a b c d = ground arith

pub first_settled :
    (new p : PayInfo)
    → p.hash == new.hash && p.order_id == new.order_id && p.status == OrderTxStatus.default ≡ true
    → PayStep p
        (record p { chain_type = new.chain_type; address = new.address; status = new.status })
first_settled new p h = (
  refl,
  refl,
  refl,
  refl,
  last_true (p.hash == new.hash) (p.order_id == new.order_id) (p.status == OrderTxStatus.default) _
      h,
  λ x. x,
)
