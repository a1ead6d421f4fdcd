-- ===== src/Handle/Cards.antt =====
-- A gift card pays for one order.
use mathlib.Core.Path.{subst}
use das_register.Prelude.{
  ℕ, Bool, true, false, Option, none, some, List, [], ◌∷◌, ◌≡◌, ◌≢◌, inl, inr, refl, ◌∙◌, sym, ap,
  arith, ◌&&◌, find?, update_where, nat_coded, ◌==◌, if◌then◌else◌, Among, Bool-cases,
}
use das_register.Tables.Names.{Name, DasAction}
use das_register.Tables.Order.{Order, self}
use das_register.Tables.Rest.{Coupon}
use das_register.Dao.Store.{Db, Done, all_of, transaction, transaction-Outcome, Statement}
use das_register.Dao.Keeps.{then_some}
use das_register.Dao.Rows.{insert_order, update_coupons, has_order, append_order}
use das_register.Dao.Orders.{create_coupon_order}
use das_register.Dao.Others.{get_coupon_by_code}
use das_register.Handle.Reply.{Reply, done, rejected, Site, error500}
use das_register.Handle.Service.{Service, seconds}
use das_register.Handle.Coupon.{
  check_coupon, get_coupon_lock_with_redis, delete_coupon_lock_with_redis, locked_unless, release,
}
use das_register.Handle.Place.{RespOrder, own_order}
use das_register.Handle.Register.{
  ReqOrderRegister, coupon_draft, given_back, store_coupon_order, use_coupon,
  do_register_coupon_order,
}
use das_register.Handle.Rules.{Stays}
use das_register.Handle.Reads.{check_coupon-Stays}
use das_register.Handle.Errors.{SameDb, SameDb-SiteOrder}
use das_register.Handle.Done.{
  Comes, after_guard, after_option, after_read, after_check, after_step, reply-Comes, store-Comes,
}

-- A card that names no order was not used either.
abbrev pub Consistent : Db → Type 0
Consistent db = (c : Coupon) → Among c db.coupons → c.order_id ≡ 0 → c.use_at ≡ 0

find-Among :
    (p : Coupon → Bool) (xs : List Coupon) (c : Coupon)
    → find? p xs ≡ some c
    → Among c xs × (p c ≡ true)
find-Among p [] c e = cc e
find-Among p (x ∷ xs) c e = elim (Bool-cases (p x)) [
  | inl holds ↦
      let same : x ≡ c = ground (arith, holds, e) in
      (inl (sym same), subst (λ z. p z ≡ true) same holds)
  | inr fails ↦
      let (among, holds) = find-Among p xs c (ground (arith, fails, e)) in (inr among, holds)
]

kept_code :
    (b : Bool) (y x : Coupon) (code : Name)
    → y.code ≡ x.code
    → (x.code == code) ≡ false
    → ((if b then y else x).code == code) ≡ false
kept_code true y x code same other = subst (λ n. (n == code) ≡ false) (sym same) other
kept_code false y x code same other = other

inserted_coupons :
    (b : Bool) (o : Order) (db db' : Db)
    → (if b then none else Option.some (record db { orders = append_order o db.orders })) ≡ some db'
    → db'.coupons ≡ db.coupons
inserted_coupons true o db db' e = cc e
inserted_coupons false o db db' e =
    let same : record db { orders = append_order o db.orders } ≡ db' = cc e in
    ap (λ d. d.coupons) (sym same)

-- An update that leaves the codes alone, on the row that a code finds.
find-update :
    (code : Name) (p : Coupon → Bool) (f : Coupon → Coupon) (xs : List Coupon) (c : Coupon)
    → ((x : Coupon) → (f x).code ≡ x.code)
    → find? (λ x. x.code == code) xs ≡ some c
    → p c ≡ true
    → find? (λ x. x.code == code) (update_where p f xs) ≡ some (f c)
find-update code p f [] c keeps e holds = cc e
find-update code p f (x ∷ xs) c keeps e holds = elim (Bool-cases (x.code == code)) [
  | inl here ↦
      let same : x ≡ c = ground (arith, here, e) in
      let chosen : p x ≡ true = subst (λ z. p z ≡ true) (sym same) holds in
      let found : ((f x).code == code) ≡ true =
        subst (λ n. (n == code) ≡ true) (sym (keeps x)) here in
      rw (chosen, found) (ap (λ z. some (f z)) same)
  | inr other ↦
      let later = find-update code p f xs c keeps (ground (arith, other, e)) holds in
      let skipped : ((if p x then f x else x).code == code) ≡ false =
        kept_code (p x) (f x) x code (keeps x) other in
      rw (skipped) later
]

-- After an order with a card, the card's code finds a row that names the order.
marked_card :
    (now : ℕ) (o : Order) (enc : Name) (c : Coupon) (db db' : Db)
    → Consistent db
    → find? (λ x. x.code == enc) db.coupons ≡ some c
    → (c.order_id == 0) ≡ true
    → all_of
        (insert_order o
          ∷ update_coupons
              (λ x. x.code == c.code && x.order_id == 0 && x.use_at == 0)
              (λ x. record x { order_id = o.order_id; use_at = now })
          ∷ [])
        db
      ≡ some db'
    → find? (λ x. x.code == enc) db'.coupons
      ≡ some (record c { order_id = o.order_id; use_at = now })
marked_card now o enc c db db' consistent found unused e =
    let (db1, first, rest) = then_some (insert_order o db) _ db' e in
    let same1 = inserted_coupons (has_order o db.orders) o db db1 first in
    let (among, _) = find-Among (λ x. x.code == enc) db.coupons c found in
    let no_order : c.order_id ≡ 0 = ground (arith, unused) in
    let no_use = consistent c among no_order in
    let matches : (c.code == c.code && c.order_id == 0 && c.use_at == 0) ≡ true =
      rw (no_order, no_use) (ground arith) in
    let updated =
      find-update enc (λ x. x.code == c.code && x.order_id == 0 && x.use_at == 0)
        (λ x. record x { order_id = o.order_id; use_at = now }) db1.coupons c (λ x. refl)
        (subst (λ xs. find? (λ x. x.code == enc) xs ≡ some c) (sym same1) found) matches in
    let marked : Db = record db1 {
      coupons =
          update_where (λ x. x.code == c.code && x.order_id == 0 && x.use_at == 0)
            (λ x. record x { order_id = o.order_id; use_at = now }) db1.coupons;
    } in
    let same : marked ≡ db' = cc rest in
    subst
      (λ d.
        find? (λ x. x.code == enc) d.coupons
        ≡ some (record c { order_id = o.order_id; use_at = now }))
      same updated

-- The code under which a card is kept.
abbrev pub kept_as : Service → Name → Name
kept_as v code = v.coupon_encry code v.cfg.coupon_encry_salt

-- The row of a card that the check let through.
check_coupon-found :
    (v : Service) (code : Name) (s : Site) (card : Coupon) (t : Site)
    → Comes (check_coupon v code) s card t
    → (find? (λ x. x.code == kept_as v code) s.world.db.coupons ≡ some card)
      × ((card.order_id == 0) ≡ true)
unfolding check_coupon get_coupon_by_code
check_coupon-found v code s card t e =
    let (_, e1) = after_guard _ _ _ s card t e in
    let (s2, _, _, e2) = after_read _ _ _ s card t e1 in
    let (found, row, e3) = after_option _ _ _ s2 card t e2 in
    let (unused, e4) = after_guard _ _ _ s2 card t e3 in
    let (_, e5) = after_guard _ _ _ s2 card t e4 in
    let (answered, _) = reply-Comes found card s2 t e5 in
    (
      subst (λ x. find? (λ y. y.code == kept_as v code) s.world.db.coupons ≡ some x) answered row,
      subst (λ x. (x.order_id == 0) ≡ true) answered unused,
    )

released_db :
    (v : Service) (code : Name) (s : Site)
    → (delete_coupon_lock_with_redis v code s).world.db ≡ s.world.db
unfolding delete_coupon_lock_with_redis
released_db v code s = by_fault (v.del_fails code)
  where
    by_fault :
        (b : Bool)
        → (if b then s else record s { locks = release code s.locks }).world.db ≡ s.world.db
    by_fault true = refl
    by_fault false = refl

given_back_done :
    (v : Service) (o : Order) (code : Name) (p : Reply Done × Site) (r : RespOrder) (t : Site)
    → given_back v o code p ≡ (done r, t)
    → (u : Done) × (s : Site) × (p ≡ (done u, s)) × (t.world.db ≡ s.world.db)
given_back_done v o code (done u, s) r t e =
    let same : delete_coupon_lock_with_redis v code s ≡ t = cc e in
    (u, s, refl, ap (λ x. x.world.db) (sym same) ∙ released_db v code s)
given_back_done v o code (rejected c, s) r t e = cc e

store_coupon_order-marked :
    (v : Service) (o : Order) (c : Coupon) (enc : Name) (s : Site) (r : RespOrder) (t : Site)
    → Comes (store_coupon_order v o c.code) s r t
    → Consistent s.world.db
    → find? (λ x. x.code == enc) s.world.db.coupons ≡ some c
    → (c.order_id == 0) ≡ true
    → find? (λ x. x.code == enc) t.world.db.coupons
      ≡ some (record c { order_id = o.order_id; use_at = seconds v })
unfolding store_coupon_order create_coupon_order
store_coupon_order-marked v o c enc s r t e consistent row unused =
    let fs : List Statement =
      insert_order o
      ∷ update_coupons (λ x. x.code == c.code && x.order_id == 0 && x.use_at == 0)
          (λ x. record x { order_id = o.order_id; use_at = seconds v })
      ∷ [] in
    let (u, s1, stored, same) = given_back_done v o c.code _ r t e in
    let (does, _) =
      store-Comes (all_of fs) error500 (transaction fs) s u s1 (transaction-Outcome fs s.world)
        stored in
    subst
      (λ d.
        find? (λ x. x.code == enc) d.coupons
        ≡ some (record c { order_id = o.order_id; use_at = seconds v }))
      (sym same) (marked_card (seconds v) o enc c s.world.db s1.world.db consistent row unused does)

lock_db : (b : Bool) (code : Name) (s : Site) → (locked_unless b code s).1.world.db ≡ s.world.db
lock_db true code s = refl
lock_db false code s = refl

get_lock-same : (v : Service) (code : Name) → Stays SameDb (get_coupon_lock_with_redis v code)
unfolding get_coupon_lock_with_redis
get_lock-same v code = record { stayed = λ s. lock_db _ code s }

-- After an order by a card the row of the card names an order, which `CreateOrderId` made.
coupon_order-marked :
    (v : Service) (req : ReqOrderRegister) (s : Site) (r : RespOrder) (t : Site)
    → Comes (do_register_coupon_order v req) s r t
    → Consistent s.world.db
    → (card : Coupon) × (o : Order) × (o.order_id
        ≡ v.create_order_id self o.account_id o.action o.chain_type o.address v.now)
      × (find? (λ x. x.code == kept_as v req.gift_card) t.world.db.coupons
          ≡ some (record card { order_id = o.order_id; use_at = seconds v }))
unfolding do_register_coupon_order use_coupon own_order
coupon_order-marked v req s r t e consistent =
    let (args, _, e1) = after_option _ _ _ s r t e in
    let (_, e2) = after_guard _ _ _ s r t e1 in
    let (card, s3, same3, checked, e3) =
      after_step SameDb _ _ s r t (check_coupon-Stays SameDb SameDb-SiteOrder v _) e2 in
    let (row, unused) = check_coupon-found v req.gift_card s card s3 checked in
    let (_, e4) = after_guard _ _ _ s3 r t e3 in
    let (_, s5, same5, _, e5) = after_check SameDb _ _ s3 r t (get_lock-same v card.code) e4 in
    let (a, _, e6) = after_option _ _ _ s5 r t e5 in
    let (_, e7) = after_guard _ _ _ s5 r t e6 in
    let o = own_order v (coupon_draft v req a) (v.stored a.total_pay_token) in
    let same = sym (same5 ∙ same3) in
    (
      card,
      o,
      refl,
      store_coupon_order-marked v o card (kept_as v req.gift_card) s5 r t e7
          (subst Consistent same consistent)
          (subst (λ d. find? (λ x. x.code == kept_as v req.gift_card) d.coupons ≡ some card) same
            row)
          unused,
    )

-- A gift card pays for one order: once an order was made with it, no request with the same card is done
-- that finds the table of cards as that order left it, whatever else has changed since. (A card is free
-- again when timer/update_coupon.go has freed it.) The cards that name no order must not count as used
-- before, and the ids that `CreateOrderId` makes must not be empty.
pub do_register_coupon_order-once :
    (v w : Service) (first second : ReqOrderRegister) (s t u t' : Site) (r r' : RespOrder)
    → Consistent s.world.db
    → ((a b c d : Name) (x : DasAction) → v.create_order_id self a x c b d ≢ 0)
    → kept_as w second.gift_card ≡ kept_as v first.gift_card
    → do_register_coupon_order v first s ≡ (done r, t)
    → u.world.db.coupons ≡ t.world.db.coupons
    → do_register_coupon_order w second u ≢ (done r', t')
unfolding do_register_coupon_order
do_register_coupon_order-once v w first second s t u t' r r' consistent ids same_card e kept =
    λ again.
      let (card, o, id, marked) = coupon_order-marked v first s r t e consistent in
      let (_, _, e1) = after_option _ _ _ u r' t' again in
      let (_, e2) = after_guard _ _ _ u r' t' e1 in
      let (card', t3, _, checked, _) =
        after_step SameDb _ _ u r' t' (check_coupon-Stays SameDb SameDb-SiteOrder w _) e2 in
      let (row, unused) = check_coupon-found w second.gift_card u card' t3 checked in
      let row' =
        subst (λ cards. find? (λ x. x.code == kept_as v first.gift_card) cards ≡ some card') kept
          (subst (λ n. find? (λ x. x.code == n) u.world.db.coupons ≡ some card') same_card row) in
      let same : record card { order_id = o.order_id; use_at = seconds v } ≡ card' =
        cc (marked, row') in
      let no_order : o.order_id ≡ 0 = ground (arith, ap (λ c. c.order_id) same, unused) in
      ids o.account_id o.address o.chain_type v.now o.action (sym id ∙ no_order)
