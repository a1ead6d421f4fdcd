-- ===== src/TxTool/Sends.antt =====
-- txtool/apply.go: the run for one order, from the check of the account to the answer of the chain.
use das_register.Prelude.{
  ◌⊎◌, inl, inr, ap, sym, ◌∙◌, Bool, true, false, Option, List, [], ◌∷◌, map, ◌≡◌, refl, ◌&&◌, ◌==◌,
  nat_coded, All, arith, if◌then◌else◌, find?, ◌<?◌,
}
use das_register.Tables.Names.{Name, DasAction, das_action_coded}
use das_register.Tables.Order.{
  Order, self, TxStatus, RegisterStatus, order_type_coded, tx_status_coded, register_status_coded,
  IsDidCell, did_cell_no, did_cell_coded, OrderStatus, order_status_coded,
}
use das_register.Tables.Pay.{apply_register}
use mathlib.Core.Path.{subst}
use das_register.Dao.Store.{Result, Done, Db, World, Call, Error, ok, err, send_tx, exec, query}
use das_register.Dao.Rows.{upsert_tx_rows}
use das_register.Dao.Orders.{update_pay_status}
use das_register.Dao.Payments.{create_order_tx}
use das_register.Dao.Queries.{
  get_pre_registered_order_by_account_id, is_register_of, needs_send_pay,
}
use das_register.TxTool.Register.{Chain, Sent, do_order_apply_tx, is_preceded, new_order_tx}

-- The order of the account that has reached the proposal stage, if there is one.
abbrev pub pre_registered : Name → List Order → Option Order
pre_registered account_id rows =
    find? (λ o. is_register_of account_id o && RegisterStatus.pre_register <? o.register_status)
      rows

abbrev pub sent_order : Name → Order → Order
sent_order id o =
    if o.order_id == id && o.order_type == self && o.pay_status == TxStatus.sending
    then record o { pay_status = TxStatus.ok }
    else o

abbrev pub unsent_order : Name → Order → Order
unsent_order id o =
    if o.order_id == id && o.order_type == self && o.pay_status == TxStatus.ok
    then record o { pay_status = TxStatus.sending }
    else o

-- A world in which no statement will fail.
abbrev pub quiet : Db → List Call → World
quiet db sent = record { db = db; faults = []; sent = sent }

-- An order that is found, whose transaction is built, which no other order precedes, and whose
-- transaction the chain takes is marked as sent, its transaction is recorded, and one message went
-- out, if no statement fails.
pub do_order_apply_tx-sent :
    (chain : Chain) (order : Order) (hash : Name) (db : Db) (sent : List Call)
    → order.id == 0 ≡ false
    → chain.build order ≡ true
    → is_preceded chain (pre_registered order.account_id db.orders) ≡ false
    → chain.send order ≡ Sent.hash hash
    → do_order_apply_tx chain order (quiet db sent) ≡ (
      ok tt,
      quiet
          (record db {
            orders = map (sent_order order.order_id) db.orders;
            txs = upsert_tx_rows (new_order_tx chain order apply_register hash) db.txs;
          })
          (send_tx apply_register order.order_id ∷ sent),
    )
unfolding do_order_apply_tx get_pre_registered_order_by_account_id query update_pay_status exec
    create_order_tx
do_order_apply_tx-sent chain order hash db sent there built free accepted =
    rw (there, built, free, accepted) refl

is_sending : (s : TxStatus) → s == TxStatus.sending ≡ true → s ≡ TxStatus.sending
is_sending TxStatus.default e = cc e
is_sending TxStatus.sending e = refl
is_sending TxStatus.ok e = cc e

all_true : (a b c : Bool) → a && b && c ≡ true → (a ≡ true) × (b ≡ true) × (c ≡ true)
all_true a b c e = ground (arith, e)

-- Whether the update that marks an order as sent changes the row, and what the row is then.
abbrev is_sent : Name → Order → Bool
is_sent id o = o.order_id == id && o.order_type == self && o.pay_status == TxStatus.sending

sent_order-true :
    (id : Name) (o : Order)
    → is_sent id o ≡ true
    → sent_order id o ≡ record o { pay_status = TxStatus.ok }
sent_order-true id o e = rw e refl

sent_order-false : (id : Name) (o : Order) → is_sent id o ≡ false → sent_order id o ≡ o
sent_order-false id o e = rw e refl

ends_false : (a b c d e : Bool) → a && (b && c && false && d && e) ≡ false
ends_false a b c d e = ground arith

spread : (a b c d e f : Bool) → a && c && d ≡ false → a && (b && c && d && e && f) ≡ false
spread a b c d e f h = ground (arith, h)

not_listed :
    (id : Name) (d : IsDidCell) (o : Order) (c : Bool)
    → is_sent id o ≡ c
    → (sent_order id o).order_id == id
        && needs_send_pay DasAction.apply_register d (sent_order id o)
      ≡ false
not_listed id d o true e = rw (sent_order-true id o e) (
    ends_false (o.order_id == id) (o.action == DasAction.apply_register) (o.order_type == self)
      (o.order_status == OrderStatus.default) (o.is_did_cell == d))
not_listed id d o false e = rw (sent_order-false id o e) (
    spread (o.order_id == id) (o.action == DasAction.apply_register) (o.order_type == self)
      (o.pay_status == TxStatus.sending) (o.order_status == OrderStatus.default)
      (o.is_did_cell == d) e)

sent_order-not_listed :
    (id : Name) (d : IsDidCell) (rows : List Order)
    → All
        (λ o. o.order_id == id && needs_send_pay DasAction.apply_register d o ≡ false)
        (map (sent_order id) rows)
sent_order-not_listed id d [] = tt
sent_order-not_listed id d (o ∷ rows) =
    (not_listed id d o (is_sent id o) refl, sent_order-not_listed id d rows)

-- Once the chain took the transaction of such an order, and no statement failed, no row of that order
-- is among those that the next tick of the job looks for: it is not sent a second time.
pub do_order_apply_tx-not_listed :
    (chain : Chain) (order : Order) (hash : Name) (db : Db) (sent : List Call)
    → order.id == 0 ≡ false
    → chain.build order ≡ true
    → is_preceded chain (pre_registered order.account_id db.orders) ≡ false
    → chain.send order ≡ Sent.hash hash
    → All
        (λ o.
          o.order_id == order.order_id && needs_send_pay DasAction.apply_register did_cell_no o
          ≡ false)
        (do_order_apply_tx chain order (quiet db sent)).1.db.orders
do_order_apply_tx-not_listed chain order hash db sent there built free accepted =
    subst
      (λ (r : Result Done × World).
        All
          (λ o.
            o.order_id == order.order_id && needs_send_pay DasAction.apply_register did_cell_no o
            ≡ false)
          r.1.db.orders)
      (sym (do_order_apply_tx-sent chain order hash db sent there built free accepted))
      (sent_order-not_listed order.order_id did_cell_no db.orders)

unsent_again :
    (id : Name) (o : Order)
    → o.order_id == id ≡ true
    → o.order_type == self ≡ true
    → unsent_order id (record o { pay_status = TxStatus.ok })
      ≡ record o { pay_status = TxStatus.sending }
unsent_again id o a b = rw (a, b) refl

restored :
    (id : Name) (o : Order) (c : Bool)
    → is_sent id o ≡ c
    → o.order_id == id && o.order_type == self && o.pay_status == TxStatus.ok ≡ false
    → unsent_order id (sent_order id o) ≡ o
restored id o true e f =
    let (a, b, s) =
      all_true (o.order_id == id) (o.order_type == self) (o.pay_status == TxStatus.sending) e in
    ap (unsent_order id) (sent_order-true id o e)
    ∙ unsent_again id o a b
    ∙ ap (λ x. record o { pay_status = x }) (sym (is_sending o.pay_status s))
restored id o false e f = rw (sent_order-false id o e) (rw f refl)

rows_restored :
    (id : Name) (rows : List Order)
    → All
        (λ o. o.order_id == id && o.order_type == self && o.pay_status == TxStatus.ok ≡ false)
        rows
    → map (unsent_order id) (map (sent_order id) rows) ≡ rows
rows_restored id [] h = refl
rows_restored id (o ∷ rows) (f, h) =
    cc (restored id o (is_sent id o) refl f, rows_restored id rows h)

-- When the chain refuses the transaction of such an order, with the contract's error 35 or 53 or with
-- any other, it is put back: the run returns an error,
-- and the database is as it was, if no row of the order was marked as sent before and no statement
-- fails.
pub do_order_apply_tx-failed :
    (chain : Chain) (order : Order) (db : Db) (sent : List Call)
    → order.id == 0 ≡ false
    → chain.build order ≡ true
    → is_preceded chain (pre_registered order.account_id db.orders) ≡ false
    → (chain.send order ≡ Sent.failed) ⊎ (chain.send order ≡ Sent.error_35_53)
    → All
        (λ o.
          o.order_id == order.order_id && o.order_type == self && o.pay_status == TxStatus.ok
          ≡ false)
        db.orders
    → do_order_apply_tx chain order (quiet db sent)
      ≡ (err Error.send_failed, quiet db (send_tx apply_register order.order_id ∷ sent))
unfolding do_order_apply_tx get_pre_registered_order_by_account_id query update_pay_status exec
do_order_apply_tx-failed chain order db sent there built free refused unsent = elim refused [
  | inl failed ↦ rw (there, built, free, failed) put_back
  | inr error_35_53 ↦ rw (there, built, free, error_35_53) put_back
]
  where
    put_back :
        Path
          (Result Done × World)
          (
            err Error.send_failed,
            quiet
                (record db {
                  orders =
                      map (unsent_order order.order_id) (map (sent_order order.order_id) db.orders);
                })
                (send_tx apply_register order.order_id ∷ sent),
          )
          (err Error.send_failed, quiet db (send_tx apply_register order.order_id ∷ sent))
    put_back =
        ap
          (λ rows. (
            err Error.send_failed,
            quiet (record db { orders = rows }) (send_tx apply_register order.order_id ∷ sent),
          ))
          (rows_restored order.order_id db.orders unsent)
