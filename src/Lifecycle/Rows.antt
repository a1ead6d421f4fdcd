-- ===== src/Lifecycle/Rows.antt =====
-- How a row of the orders or of the payments may change, and the statements under which it does.
use das_register.Prelude.{Bool, true, false, List, ◌≡◌, refl, not, ◌==◌, update_where, ◌∙◌}
use das_register.Tables.Order.{Order, TxStatus, OrderStatus, tx_status_coded, order_status_coded}
use das_register.Tables.Pay.{PayInfo, OrderTxStatus, order_tx_status_coded}
use das_register.Dao.Store.{Db}
use das_register.Dao.Rows.{has_order, append_order, has_pay, append_pay}
use das_register.Lifecycle.Grows.{
  Grows, Grows-refl, Grows-trans, Grows-append, Grows-update_where, not_found-new,
}
use das_register.Dao.Keeps.{Preorder}

abbrev pub is_closed : Order → Bool
is_closed o = o.order_status == OrderStatus.closed

abbrev pub is_paid : Order → Bool
is_paid o = not (o.pay_status == TxStatus.default)

-- The row keeps its order and whose it is; once closed it stays closed, once paid it stays paid.
abbrev pub OrderStep : Order → Order → Type 0
OrderStep o o' =
    (o'.id ≡ o.id)
    × (o'.order_id ≡ o.order_id)
    × (o'.order_type ≡ o.order_type)
    × (is_closed o ≡ true → is_closed o' ≡ true)
    × (is_paid o ≡ true → is_paid o' ≡ true)

-- A payment is settled once it is confirmed, rejected or disputed.
abbrev pub is_settled : PayInfo → Bool
is_settled p = not (p.status == OrderTxStatus.default)

abbrev pub is_marked : PayInfo → Bool
is_marked p = not (p.refund_status == TxStatus.default)

-- The row keeps its hash, its order and its account; once settled it stays settled, and once marked
-- for a refund it stays marked.
abbrev pub PayStep : PayInfo → PayInfo → Type 0
PayStep p p' =
    (p'.id ≡ p.id)
    × (p'.hash ≡ p.hash)
    × (p'.order_id ≡ p.order_id)
    × (p'.account_id ≡ p.account_id)
    × (is_settled p ≡ true → is_settled p' ≡ true)
    × (is_marked p ≡ true → is_marked p' ≡ true)

-- Every row is still at its place, and has changed as above; rows may have been added; and if no two
-- rows had one order's id, or one hash, then none have.
abbrev pub OrdersStep : List Order → List Order → Type 0
OrdersStep = Grows (λ o. o.order_id) OrderStep

abbrev pub PaysStep : List PayInfo → List PayInfo → Type 0
PaysStep = Grows (λ p. p.hash) PayStep

abbrev pub Progress : Db → Db → Type 0
Progress db db' = OrdersStep db.orders db'.orders × PaysStep db.pays db'.pays

pub OrderStep-refl : (o : Order) → OrderStep o o
OrderStep-refl o = (refl, refl, refl, λ h. h, λ h. h)

pub PayStep-refl : (p : PayInfo) → PayStep p p
PayStep-refl p = (refl, refl, refl, refl, λ h. h, λ h. h)

OrderStep-trans : (a b c : Order) → OrderStep a b → OrderStep b c → OrderStep a c
OrderStep-trans a b c (i, o, t, s, p) (i', o', t', s', p') =
    (i' ∙ i, o' ∙ o, t' ∙ t, λ h. s' (s h), λ h. p' (p h))

PayStep-trans : (a b c : PayInfo) → PayStep a b → PayStep b c → PayStep a c
PayStep-trans a b c (i, h, o, n, s, m) (i', h', o', n', s', m') =
    (i' ∙ i, h' ∙ h, o' ∙ o, n' ∙ n, λ x. s' (s x), λ x. m' (m x))

pub orders_refl : (xs : List Order) → OrdersStep xs xs
orders_refl = Grows-refl (λ o. o.order_id) OrderStep OrderStep-refl

pub pays_refl : (xs : List PayInfo) → PaysStep xs xs
pays_refl = Grows-refl (λ p. p.hash) PayStep PayStep-refl

pub Progress-Preorder : Preorder Progress
Progress-Preorder = record {
  same = λ db. (orders_refl db.orders, pays_refl db.pays);
  join = λ a b c (o, p) (o', p'). (
    Grows-trans (λ o. o.order_id) OrderStep OrderStep-trans a.orders b.orders c.orders o o',
    Grows-trans (λ p. p.hash) PayStep PayStep-trans a.pays b.pays c.pays p p',
  );
}

pub orders_updated :
    (p : Order → Bool) (f : Order → Order)
    → ((o : Order) → p o ≡ true → OrderStep o (f o))
    → (rows : List Order) → OrdersStep rows (update_where p f rows)
orders_updated p f step rows =
    Grows-update_where (λ o. o.order_id) OrderStep (λ o o' h. h.1) p f OrderStep-refl step rows

pub pays_updated :
    (p : PayInfo → Bool) (f : PayInfo → PayInfo)
    → ((x : PayInfo) → p x ≡ true → PayStep x (f x))
    → (rows : List PayInfo) → PaysStep rows (update_where p f rows)
pays_updated p f step rows =
    Grows-update_where (λ x. x.hash) PayStep (λ x x' h. h.1) p f PayStep-refl step rows

pub order_appended :
    (o : Order) (rows : List Order)
    → has_order o rows ≡ false
    → OrdersStep rows (append_order o rows)
order_appended o rows new =
    Grows-append (λ x. x.order_id) OrderStep OrderStep-refl rows (record o { id = _ })
      (not_found-new (λ x. x.order_id) o.order_id rows new)

pub pay_appended :
    (p : PayInfo) (rows : List PayInfo) → has_pay p rows ≡ false → PaysStep rows (append_pay p rows)
pay_appended p rows new =
    Grows-append (λ x. x.hash) PayStep PayStep-refl rows (record p { id = _ })
      (not_found-new (λ x. x.hash) p.hash rows new)
