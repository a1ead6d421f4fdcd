-- ===== src/Handle/Stored.antt =====
-- The orders that the handlers make, as they are found afterwards.
use mathlib.Core.Path.{subst}
use das_register.Prelude.{
  ℕ, suc, Bool, true, false, Option, none, some, List, [], ◌∷◌, ◌++◌, ◌≡◌, inl, inr, refl, ◌∙◌, sym,
  find?, arith, length, nat_coded, ◌==◌, if◌then◌else◌, ap,
}
use das_register.Tables.Names.{Name, ChainType, DasAction, PayTokenId}
use das_register.Tables.Order.{
  Order, OrderContent, encoded, self, did_cell_no, TxStatus, OrderStatus,
}
use das_register.Tables.Pay.{PayInfo}
use das_register.Dao.Store.{Db, Statement, Done, all_of, ◌then◌, transaction, transaction-Outcome}
use das_register.Dao.Keeps.{then_some}
use das_register.Dao.Rows.{insert_order, insert_pay, append_order}
use das_register.Dao.Orders.{create_order_with_payment}
use das_register.Handle.Reply.{ApiCode, done, Site, from_dao}
use das_register.Handle.Service.{Service, UnipayOrder}
use das_register.Handle.Amounts.{Payable, add_premium}
use das_register.Handle.Place.{
  Draft, own_order, unipay_order, payment_of, no_payment, RespOrder, store_order, placed_at,
  create_at_unipay, place_at_unipay, place_order,
}
use das_register.Handle.Done.{
  Comes, next-Comes, also-Comes, guard-Comes, option-Comes, reply-Comes, branch-Comes, store-Comes,
}

-- The row that the id of an order finds.
abbrev pub found_order : Name → List Order → Option Order
found_order id rows = find? (λ o. o.order_id == id) rows

find-append :
    (p : Order → Bool) (xs : List Order) (o : Order)
    → find? p xs ≡ none
    → p o ≡ true
    → find? p (xs ++ o ∷ []) ≡ some o
find-append p [] o missing holds = rw holds refl
find-append p (x ∷ xs) o missing holds = ground (arith, find-append p xs o)

unless_found :
    (found : Option Order) (db db' : Db)
    → (if elim found [ none ↦ false | some _ ↦ true ] then none else Option.some db) ≡ some db'
    → (found ≡ none) × (db ≡ db')
unless_found none db db' e = (refl, cc e)
unless_found (some x) db db' e = cc e

-- An order that was inserted had an id of its own, and its id finds it.
pub insert_order-found :
    (o : Order) (db db' : Db)
    → insert_order o db ≡ some db'
    → (found_order o.order_id db.orders ≡ none)
      × (db'.orders ≡ append_order o db.orders)
      × (found_order o.order_id db'.orders ≡ some (record o { id = suc (length db.orders) }))
insert_order-found o db db' e =
    let (missing, same) = unless_found (found_order o.order_id db.orders) _ db' e in
    (
      missing,
      ap (λ d. d.orders) (sym same),
      subst (λ d. found_order o.order_id d.orders ≡ some (record o { id = suc (length db.orders) }))
          same
          (find-append (λ x. x.order_id == o.order_id) db.orders
            (record o { id = suc (length db.orders) }) missing (ground arith)),
    )

-- Between two sites the order was stored, under an id that no order had.
pub record Stored (s t : Site) (o : Order) : Type 0 where
  pub fresh : found_order o.order_id s.world.db.orders ≡ none
  pub grown : t.world.db.orders ≡ append_order o s.world.db.orders
  pub found :
      found_order o.order_id t.world.db.orders
      ≡ some (record o { id = suc (length s.world.db.orders) })

inserted_pay :
    (found : Option PayInfo) (db x : Db) (db' : Db)
    → x.orders ≡ db.orders
    → elim (if elim found [ none ↦ false | some _ ↦ true ] then none else Option.some x) [
      | none ↦ none
      | some y ↦ some y
    ]
      ≡ some db'
    → db'.orders ≡ db.orders
inserted_pay none db x db' same e =
    let q : x ≡ db' = cc e in subst (λ d. d.orders ≡ db.orders) q same
inserted_pay (some p) db x db' same e = cc e

pay_orders :
    (b : Bool) (p : PayInfo) (db db' : Db)
    → all_of (if b then [] else insert_pay p ∷ []) db ≡ some db'
    → db'.orders ≡ db.orders
pay_orders true p db db' e = let q : db ≡ db' = cc e in ap (λ d. d.orders) (sym q)
pay_orders false p db db' e = inserted_pay (find? (λ x. x.hash == p.hash) db.pays) db _ db' refl e

Stored-from :
    (s t : Site) (o : Order) (p : PayInfo)
    → all_of (insert_order o ∷ (if p.hash == 0 then [] else insert_pay p ∷ [])) s.world.db
      ≡ some t.world.db
    → Stored s t o
Stored-from s t o p e =
    let (db, first, rest) =
      then_some (insert_order o s.world.db) (all_of (if p.hash == 0 then [] else insert_pay p ∷ []))
        t.world.db e in
    let (fresh, grown, found) = insert_order-found o s.world.db db first in
    let same = pay_orders (p.hash == 0) p db t.world.db rest in
    record {
      fresh = fresh;
      grown = same ∙ grown;
      found = ap (λ rows. found_order o.order_id rows) same ∙ found;
    }

pub Stored-before :
    (s s' t : Site) (o : Order) → s'.world.db ≡ s.world.db → Stored s' t o → Stored s t o
Stored-before s s' t o e st = record {
  fresh = subst (λ d. found_order o.order_id d.orders ≡ none) e st.fresh;
  grown = subst (λ d. t.world.db.orders ≡ append_order o d.orders) e st.grown;
  found =
      subst
        (λ d.
          found_order o.order_id t.world.db.orders ≡ some (record o { id = suc (length d.orders) }))
        e st.found;
}

created-Stored :
    (code : ApiCode) (o : Order) (p : PayInfo) (s : Site) (u : Done) (t : Site)
    → Comes (from_dao code (create_order_with_payment o p)) s u t
    → Stored s t o
unfolding create_order_with_payment
created-Stored code o p s u t e =
    let fs : List Statement = insert_order o ∷ (if p.hash == 0 then [] else insert_pay p ∷ []) in
    let (does, _) =
      store-Comes (all_of fs) code (transaction fs) s u t (transaction-Outcome fs s.world) e in
    Stored-from s t o p does

pub store_order-Stored :
    (v : Service) (o : Order) (p : PayInfo) (a c : Name) (s : Site) (r : RespOrder) (t : Site)
    → Comes (store_order v o p a c) s r t
    → Stored s t o × (r.order_id ≡ o.order_id) × (r.amount ≡ o.pay_amount)
unfolding store_order
store_order-Stored v o p a c s r t e =
    let (_, s1, guarded, e1) = also-Comes _ _ s r t e in
    let (_, s1_same) = guard-Comes _ _ s _ s1 guarded in
    let (u, s2, stored, e2) = also-Comes _ _ s1 r t e1 in
    let (answered, s2_same) = reply-Comes _ r s2 t e2 in
    (
      subst (λ x. Stored x t o) (sym s1_same)
          (subst (λ x. Stored s1 x o) s2_same (created-Stored _ o p s1 u s2 stored)),
      ap (λ x. x.order_id) (sym answered),
      ap (λ x. x.amount) (sym answered),
    )

-- What an order has from its draft, whether or not it was made at unipay.
pub record IsOrderOf (d : Draft) (r : RespOrder) (o : Order) : Type 0 where
  pub id_eq : o.order_id ≡ r.order_id
  pub amount_eq : o.pay_amount ≡ r.amount
  pub account_eq : (o.account_id ≡ d.account_id) × (o.account ≡ d.account)
  pub owner_eq : (o.chain_type ≡ d.chain_type) × (o.address ≡ d.address)
  pub action_eq : o.action ≡ d.action
  pub payment_eq : (o.pay_token_id ≡ d.pay_token_id) × (o.pay_type ≡ d.pay_type)
  pub coins_eq : (o.coin_type ≡ d.coin_type) × (o.cross_coin_type ≡ d.cross_coin_type)
  pub kind_eq : (o.order_type ≡ self) × (o.is_did_cell ≡ did_cell_no)
  pub content_eq : o.content ≡ d.content
  pub statuses_eq :
      (o.register_status ≡ d.register_status)
      × (o.pay_status ≡ d.pay_status)
      × (o.order_status ≡ OrderStatus.default)
      × (o.pre_register_status ≡ TxStatus.default)
      × (o.hedge_status ≡ TxStatus.default)

own_order-IsOrderOf :
    (v : Service) (d : Draft) (amount : ℕ) (r : RespOrder)
    → r.order_id ≡ (own_order v d amount).order_id
    → r.amount ≡ (own_order v d amount).pay_amount
    → IsOrderOf d r (own_order v d amount)
unfolding own_order
own_order-IsOrderOf v d amount r id amount_eq = record {
  id_eq = sym id;
  amount_eq = sym amount_eq;
  account_eq = (refl, refl);
  owner_eq = (refl, refl);
  action_eq = refl;
  payment_eq = (refl, refl);
  coins_eq = (refl, refl);
  kind_eq = (refl, refl);
  content_eq = refl;
  statuses_eq = (refl, refl, refl, refl, refl);
}

unipay_order-IsOrderOf :
    (v : Service) (d : Draft) (p : Payable v) (res : UnipayOrder) (r : RespOrder)
    → r.order_id ≡ (unipay_order v d p res).order_id
    → r.amount ≡ (unipay_order v d p res).pay_amount
    → IsOrderOf d r (unipay_order v d p res)
unfolding unipay_order
unipay_order-IsOrderOf v d p res r id amount_eq = record {
  id_eq = sym id;
  amount_eq = sym amount_eq;
  account_eq = (refl, refl);
  owner_eq = (refl, refl);
  action_eq = refl;
  payment_eq = (refl, refl);
  coins_eq = (refl, refl);
  kind_eq = (refl, refl);
  content_eq = refl;
  statuses_eq = (refl, refl, refl, refl, refl);
}

-- An open order of the service itself that was not paid, by what it is for and whose it is; its amount
-- is the one of the answer, and its content is the one given.
pub record Unpaid (action : DasAction) (account_id account : Name) (chain_type : ChainType)
    (address : Name) (pay_token_id : PayTokenId) (content : OrderContent) (r : RespOrder)
    (o : Order) : Type 0 where
  pub for_action : o.action ≡ action
  pub of_account : (o.account_id ≡ account_id) × (o.account ≡ account)
  pub of_address : (o.chain_type ≡ chain_type) × (o.address ≡ address)
  pub in_token : o.pay_token_id ≡ pay_token_id
  pub content_eq : o.content ≡ encoded content
  pub not_paid : o.pay_status ≡ TxStatus.default
  pub is_open : (o.order_type ≡ self) × (o.order_status ≡ OrderStatus.default)
  pub id_eq : o.order_id ≡ r.order_id
  pub amount_eq : o.pay_amount ≡ r.amount

-- The same from a draft that was written out.
pub IsOrderOf-Unpaid :
    (d : Draft) (r : RespOrder) (o : Order) (content : OrderContent)
    → d.content ≡ encoded content
    → d.pay_status ≡ TxStatus.default
    → IsOrderOf d r o
    → Unpaid d.action d.account_id d.account d.chain_type d.address d.pay_token_id content r o
IsOrderOf-Unpaid d r o content with_content unpaid h = record {
  for_action = h.action_eq;
  of_account = h.account_eq;
  of_address = h.owner_eq;
  in_token = h.payment_eq.0;
  content_eq = h.content_eq ∙ with_content;
  not_paid = h.statuses_eq.1 ∙ unpaid;
  is_open = (h.kind_eq.0, h.statuses_eq.2);
  id_eq = h.id_eq;
  amount_eq = h.amount_eq;
}

abbrev pub StoredFor : Draft → Site → RespOrder → Site → Type 0
StoredFor d s r t = (o : Order) × IsOrderOf d r o × Stored s t o

placed_same :
    (res : Option UnipayOrder) (s : Site) (x : UnipayOrder) (t : Site)
    → placed_at res s ≡ (done x, t)
    → t.world.db ≡ s.world.db
placed_same none s x t e = cc e
placed_same (some y) s x t e =
    let same : record s { placed = y.order_id ∷ s.placed } ≡ t = cc e in
    subst (λ z. z.world.db ≡ s.world.db) same refl

at_unipay-Stored :
    (v : Service) (d : Draft) (p : Payable v) (s : Site) (r : RespOrder) (t : Site)
    → Comes (place_at_unipay v d p) s r t
    → StoredFor d s r t
unfolding place_at_unipay create_at_unipay
at_unipay-Stored v d p s r t e =
    let (_, s1, formatted, e1) = next-Comes _ _ s r t e in
    let (_, s1_same) = option-Comes _ _ s _ s1 formatted in
    let (res, s2, placed, e2) = next-Comes _ _ s1 r t e1 in
    let s2_same = placed_same _ s1 res s2 placed in
    let (stored, id, amount) =
      store_order-Stored v (unipay_order v d p res) (payment_of v d res) _ _ s2 r t e2 in
    (
      unipay_order v d p res,
      unipay_order-IsOrderOf v d p res r id amount,
      Stored-before s s2 t (unipay_order v d p res) (s2_same ∙ ap (λ x. x.world.db) (sym s1_same))
          stored,
    )

-- An order that was placed is in the table under a new id, which finds it, and which the answer names
-- with the amount. It has the account, the address, the action, the content, the token and the type of
-- payment, the types of coins, and the statuses of the payment and the registration of its draft; it is
-- open, of the service itself and for no did cell, and is neither pre-registered nor hedged.
pub place_order-Stored :
    (v : Service) (d : Draft) (amount : v.Num) (s : Site) (r : RespOrder) (t : Site)
    → place_order v d amount s ≡ (done r, t)
    → StoredFor d s r t
unfolding place_order
place_order-Stored v d amount s r t e = elim (branch-Comes _ _ _ s r t e) [
  | inl (own, e1) ↦
      let (stored, id, amount_eq) =
        store_order-Stored v (own_order v d (v.stored amount)) no_payment _ _ s r t e1 in
      (
        own_order v d (v.stored amount),
        own_order-IsOrderOf v d (v.stored amount) r id amount_eq,
        stored,
      )
  | inr (unipay, e1) ↦ at_unipay-Stored v d (add_premium v d.pay_token_id amount) s r t e1
]
