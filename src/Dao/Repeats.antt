-- ===== src/Dao/Repeats.antt =====
-- dao/t_das_order_pay_info.go, `UpdatePayment`: a payment that is reported again.
use das_register.Prelude.{
  ℕ, Bool, true, false, some, List, [], ◌∷◌, ◌++◌, map, ◌≡◌, refl, sym, ap, ◌∙◌, ◌&&◌, ◌==◌,
  nat_coded, if◌then◌else◌, arith, beq, suc, length,
}
use das_register.Tables.Order.{
  Order, self, TxStatus, RegisterStatus, order_type_coded, tx_status_coded,
}
use das_register.Tables.Pay.{PayInfo, OrderTxStatus, order_tx_status_coded}
use das_register.Dao.Store.{Db, Statement, World, Outcome, Result, Done, ok, err, transaction-does}
use das_register.Dao.Rows.{has_pay, append_pay}
use das_register.Dao.Payments.{update_payment}

-- The unpaid order of the payment, if it is the service's own, is paid and to be applied for.
abbrev pub paid_order : PayInfo → Order → Order
paid_order p o =
    if o.order_id == p.order_id && o.order_type == self && o.pay_status == TxStatus.default
    then record o { pay_status = TxStatus.sending; register_status = RegisterStatus.apply_register }
    else o

-- The row of the payment takes its status, if it had none yet.
abbrev pub settled_pay : PayInfo → PayInfo → PayInfo
settled_pay p x =
    if x.hash == p.hash && x.order_id == p.order_id && x.status == OrderTxStatus.default
    then record x { chain_type = p.chain_type; address = p.address; status = p.status }
    else x

abbrev with_pay : PayInfo → List PayInfo → List PayInfo
with_pay p rows = if has_pay p rows then rows else append_pay p rows

abbrev pub paid_db : PayInfo → Db → Db
paid_db p db = record db {
  orders = map (paid_order p) db.orders;
  pays = map (settled_pay p) (with_pay p db.pays);
}

abbrev pub paid : PayInfo → Statement
paid p db = some (paid_db p db)

-- `UpdatePayment` does its three updates, or returns an error that a fault is behind and does none.
pub update_payment_lem : (p : PayInfo) (w : World) → Outcome (paid p) w (update_payment p w)
unfolding update_payment
update_payment_lem p w = transaction-does _ (paid p) w refl

if_same : {A : Type 0} (b : Bool) (x : A) → (if b then x else x) ≡ x
if_same true x = refl
if_same false x = refl

map_after :
    {A : Type 0} (f g : A → A)
    → ((x : A) → f (g x) ≡ g x)
    → (xs : List A) → map f (map g xs) ≡ map g xs
map_after f g same [] = refl
map_after f g same (x ∷ xs) = cc (same x, map_after f g same xs)

-- The same payment: its hash and its order are those of the other report.
abbrev pub SamePayment : PayInfo → PayInfo → Type 0
SamePayment p q = (q.hash ≡ p.hash) × (q.order_id ≡ p.order_id)

paid_order_again :
    (p q : PayInfo)
    → SamePayment p q
    → (o : Order) (c : Bool)
    → o.order_id == p.order_id && o.order_type == self && o.pay_status == TxStatus.default ≡ c
    → paid_order q (paid_order p o) ≡ paid_order p o
paid_order_again p q (h, i) o true e = simp (i, e) (if_same _ _)
paid_order_again p q (h, i) o false e = simp (i, e)

and_false : (a b : Bool) → a && b && false ≡ false
and_false a b = ground arith

settled_pay_again :
    (p q : PayInfo)
    → SamePayment p q
    → p.status ≡ OrderTxStatus.confirm
    → (x : PayInfo) (c : Bool)
    → x.hash == p.hash && x.order_id == p.order_id && x.status == OrderTxStatus.default ≡ c
    → settled_pay q (settled_pay p x) ≡ settled_pay p x
settled_pay_again p q (h, i) s x true e = simp (h, i, e, s, and_false)
settled_pay_again p q (h, i) s x false e = simp (h, i, e)

beq_refl : (n : ℕ) → beq n n ≡ true
beq_refl n = ground arith

has-cons :
    (p x : PayInfo) (xs : List PayInfo)
    → has_pay p (x ∷ xs) ≡ (if x.hash == p.hash then true else has_pay p xs)
has-cons p x xs = ground arith

has-append :
    (p : PayInfo) (n : ℕ) (rows : List PayInfo)
    → has_pay p (rows ++ record p { id = n } ∷ []) ≡ true
has-append p n [] = has-cons p (record p { id = n }) [] ∙ rw (beq_refl p.hash) refl
has-append p n (x ∷ rows) =
    has-cons p x _ ∙ rw (has-append p n rows) (if_same (x.hash == p.hash) true)

has-map :
    (p : PayInfo) (f : PayInfo → PayInfo)
    → ((x : PayInfo) → (f x).hash ≡ x.hash)
    → (rows : List PayInfo) → has_pay p (map f rows) ≡ has_pay p rows
has-map p f same [] = refl
has-map p f same (x ∷ rows) =
    has-cons p (f x) _ ∙ rw (same x, has-map p f same rows) (sym (has-cons p x rows))

settled_pay-hash : (p x : PayInfo) → (settled_pay p x).hash ≡ x.hash
settled_pay-hash p x = ground arith

has-with_pay :
    (p : PayInfo) (rows : List PayInfo) (b : Bool)
    → has_pay p rows ≡ b
    → has_pay p (with_pay p rows) ≡ true
has-with_pay p rows true e = rw (e, e) refl
has-with_pay p rows false e = rw e (has-append p (suc (length rows)) rows)

has-same :
    (p q : PayInfo) → q.hash ≡ p.hash → (rows : List PayInfo) → has_pay q rows ≡ has_pay p rows
has-same p q h rows = rw h refl

with_pay-has : (p : PayInfo) (rows : List PayInfo) → has_pay p rows ≡ true → with_pay p rows ≡ rows
with_pay-has p rows h = rw h refl

pays_again :
    (p q : PayInfo)
    → SamePayment p q
    → p.status ≡ OrderTxStatus.confirm
    → (rows : List PayInfo)
    → map (settled_pay q) (with_pay q (map (settled_pay p) (with_pay p rows)))
      ≡ map (settled_pay p) (with_pay p rows)
pays_again p q (h, i) s rows =
    let there : has_pay q (map (settled_pay p) (with_pay p rows)) ≡ true =
      has-same p q h (map (settled_pay p) (with_pay p rows))
      ∙ has-map p (settled_pay p) (settled_pay-hash p) (with_pay p rows)
      ∙ has-with_pay p rows (has_pay p rows) refl in
    ap (map (settled_pay q)) (with_pay-has q (map (settled_pay p) (with_pay p rows)) there)
    ∙ map_after (settled_pay q) (settled_pay p) (λ x. settled_pay_again p q (h, i) s x _ refl)
        (with_pay p rows)

paid_again :
    (p q : PayInfo)
    → SamePayment p q
    → p.status ≡ OrderTxStatus.confirm
    → (db : Db) → paid_db q (paid_db p db) ≡ paid_db p db
paid_again p q same s db =
    let first =
      map_after (paid_order q) (paid_order p) (λ o. paid_order_again p q same o _ refl) db.orders in
    ap
      (λ rows. record db {
        orders = rows;
        pays = map (settled_pay q) (with_pay q (map (settled_pay p) (with_pay p db.pays)));
      })
      first
    ∙ ap (λ rows. record db { orders = map (paid_order p) db.orders; pays = rows })
        (pays_again p q same s db.pays)

done-db :
    (f : Statement) (w w' : World) (r : Result Done × World)
    → r ≡ (ok tt, w')
    → Outcome f w r
    → f w.db ≡ some w'.db
done-db f w w' (ok _, v) e (done, clean, quiet) = let q : v ≡ w' = cc e in rw (← q) done
done-db f w w' (err _, v) e (same, why, quiet) = cc e

kept-db :
    (f : Statement) (w : World) (r : Result Done × World)
    → f w.db ≡ some w.db
    → Outcome f w r
    → r.1.db ≡ w.db
kept-db f w (ok _, v) e (done, clean, quiet) = cc (e, done)
kept-db f w (err _, v) e (same, why, quiet) = same

-- Once a confirmed payment was taken in, a second report of it, the same hash for the same order,
-- leaves the database as it is, whatever else it says and whether or not it meets a fault.
pub update_payment-update_payment :
    (p q : PayInfo) (w w' : World)
    → SamePayment p q
    → p.status ≡ OrderTxStatus.confirm
    → update_payment p w ≡ (ok tt, w')
    → (update_payment q w').1.db ≡ w'.db
update_payment-update_payment p q w w' same s e =
    let first : some (paid_db p w.db) ≡ some w'.db =
      done-db (paid p) w w' (update_payment p w) e (update_payment_lem p w) in
    let d : paid_db p w.db ≡ w'.db = cc first in
    kept-db (paid q) w' (update_payment q w') (ap some (rw (← d) (paid_again p q same s w.db)))
      (update_payment_lem q w')
