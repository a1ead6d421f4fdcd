-- ===== src/Timer/Expiry.antt =====
-- timer/expired.go: which orders the job closes.
use das_register.Prelude.{
  ℕ, Bool, true, List, ◌≡◌, refl, ◌∙◌, ap, ◌&&◌, ◌==◌, nat_coded, ◌⊎◌, inl, inr, Extends,
  Extends-refl, Extends-update_where, Extends-trans, arith,
}
use das_register.Tables.Order.{Order, self, OrderStatus, order_status_coded, order_type_coded}
use das_register.Dao.Store.{Db, World}
use das_register.Dao.Keeps.{
  Preorder, Keeps, exec-Keeps, query-Keeps, bind-Keeps, then-Keeps, for_each-Keeps, total-Safe,
}
use das_register.Dao.Orders.{do_expired_order, is_unpaid_status}
use das_register.Dao.Queries.{get_need_expired_orders, get_need_expired_orders2}
use das_register.Timer.Checks.{check_expired}

abbrev pub closed : Order → Order
closed o = record o { order_status = OrderStatus.closed }

-- An open order of the service itself whose register status is that before a payment is confirmed. Its
-- pay status is not looked at.
abbrev pub is_expirable : Order → Bool
is_expirable o =
    o.order_type == self
    && is_unpaid_status o.register_status
    && o.order_status == OrderStatus.default

-- The row is as it was, or it was such an order and is closed.
abbrev pub ExpireStep : Order → Order → Type 0
ExpireStep o o' = (o' ≡ o) ⊎ ((o' ≡ closed o) × (is_expirable o ≡ true))

-- The orders change so, and the payments do not.
abbrev pub Expired : Db → Db → Type 0
Expired db db' = Extends ExpireStep db.orders db'.orders × (db'.pays ≡ db.pays)

ExpireStep-refl : (o : Order) → ExpireStep o o
ExpireStep-refl o = inl refl

ExpireStep-trans : (a b c : Order) → ExpireStep a b → ExpireStep b c → ExpireStep a c
ExpireStep-trans a b c (inl p) (inl q) = inl (q ∙ p)
ExpireStep-trans a b c (inr (p, h)) (inl q) = inr (q ∙ p, h)
ExpireStep-trans a b c (inl p) (inr (q, h)) = inr (q ∙ ap closed p, rw (← p) h)
ExpireStep-trans a b c (inr (p, h)) (inr (q, k)) = inr (q ∙ ap closed p, h)

Expired-Preorder : Preorder Expired
Expired-Preorder = record {
  same = λ db. (Extends-refl ExpireStep ExpireStep-refl db.orders, refl);
  join = λ a b c (o, p) (o', p').
      (Extends-trans ExpireStep ExpireStep-trans a.orders b.orders c.orders o o', p' ∙ p);
}

first_false : (a b c d : Bool) → a && b && c && d ≡ true → b && c && d ≡ true
first_false a b c d = ground arith

do_expired_order-Expired : (id : ℕ) → Keeps Expired (do_expired_order id)
unfolding do_expired_order
do_expired_order-Expired id = exec-Keeps Expired Expired-Preorder _ (
    total-Safe Expired Expired-Preorder _ (λ db. (
      Extends-update_where ExpireStep _ closed ExpireStep-refl
          (λ o h. inr (
            refl,
            first_false (o.order_id == id) (o.order_type == self)
                (is_unpaid_status o.register_status) (o.order_status == OrderStatus.default) h,
          ))
          db.orders,
      refl,
    )))

pub check_expired-Expired : (now : ℕ) (w : World) → Expired w.db (check_expired now w).1.db
unfolding check_expired get_need_expired_orders get_need_expired_orders2
check_expired-Expired now w =
    let close = λ (list : List Order).
      for_each-Keeps Expired Expired-Preorder (λ (v : Order). do_expired_order-Expired v.order_id)
        list in
    (bind-Keeps Expired Expired-Preorder (query-Keeps Expired Expired-Preorder _) (λ list.
        then-Keeps Expired Expired-Preorder (close list) (
          bind-Keeps Expired Expired-Preorder (query-Keeps Expired Expired-Preorder _) close))).kept
      w
