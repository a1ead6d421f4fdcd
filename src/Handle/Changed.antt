-- ===== src/Handle/Changed.antt =====
-- When a request to change or to renew, or the hash of a payment, is done.
use mathlib.Core.Path.{subst}
use das_register.Prelude.{
  Bool, true, false, Option, none, some, List, [], ◌∷◌, ◌≡◌, ◌≢◌, ◌⊎◌, inl, inr, ◌∙◌, sym, arith,
  length, filter, nat_coded, ◌==◌, if◌then◌else◌, Among, Among-filter, Among-append, Among-last,
  suc,
}
use das_register.Tables.Names.{Name, ChainType, pay_token_coded}
use das_register.Tables.Order.{
  Order, OrderContent, TxStatus, OrderStatus, RegisterStatus, order_status_coded,
  register_status_coded, order_type_coded,
}
use das_register.Tables.Rest.{account_status_coded}
use das_register.Dao.Queries.{get_latest_register_order_by_self, first_order, pick, comes_first}
use das_register.Handle.Reply.{Site, done}
use das_register.Handle.Service.{Service}
use das_register.Handle.Amounts.{Amounts, is_payable}
use das_register.Handle.Place.{RespOrder}
use das_register.Handle.Register.{
  ReqOrderRegister, ReqOrderRegisterBase, register_draft, whitelisted,
}
use das_register.Handle.Change.{
  unmarshal_content, ReqOrderChange, as_register, old_order_check, do_new_order, do_order_change,
}
use das_register.Handle.Reads.{
  check_system_upgrade-Stays, check_latest-Stays, check_order_info-Stays, old_order_check-Stays,
}
use das_register.Handle.Errors.{SameDb, SameDb-SiteOrder}
use das_register.Handle.Done.{
  Comes, option-Comes, after_guard, after_option, after_read, after_step, after_check,
}
use das_register.Handle.Stored.{found_order, StoredFor, place_order-Stored}
use das_register.Handle.Accepted.{StoredFor-before}

-- What `LIMIT 1` finds is one of the rows.
pick-Among :
    (best : Option Order) (os : List Order) (r : Order)
    → pick best os ≡ some r
    → (best ≡ some r) ⊎ Among r os
pick-Among best [] r e = inl e
pick-Among none (o ∷ os) r e = elim (pick-Among (some o) os r e) [
  | inl same ↦ inr (inl (cc same))
  | inr later ↦ inr (inr later)
]
pick-Among (some b) (o ∷ os) r e =
    elim (pick-Among (some (if comes_first o b then o else b)) os r e) [
      | inl same ↦ chosen (comes_first o b) same
      | inr later ↦ inr (inr later)
    ]
  where
    chosen :
        (c : Bool)
        → Option.some (if c then o else b) ≡ some r
        → (Option.some b ≡ some r) ⊎ Among r (o ∷ os)
    chosen true same = inr (inl (cc same))
    chosen false same = inl same

first_order-Among :
    (p : Order → Bool) (xs : List Order) (r : Order)
    → first_order (filter p xs) ≡ some r
    → Among r xs × (p r ≡ true)
first_order-Among p xs r e = elim (pick-Among none (filter p xs) r e) [
  | inl missing ↦ cc missing
  | inr among ↦ Among-filter p xs r among
]

-- The order that is changed. Its pay status is not looked at.
pub record Waiting (v : Service) (chain_type : ChainType) (address account : Name) (s : Site)
    (content : OrderContent) : Type 0 where
  pub order : Order
  pub among : Among order s.world.db.orders
  pub of_account : order.account_id ≡ v.account_id account
  pub of_address : (order.chain_type ≡ chain_type) × (order.address ≡ address)
  pub unpaid : order.register_status ≡ RegisterStatus.confirm_payment
  pub is_open : order.order_status ≡ OrderStatus.default
  pub content_eq : unmarshal_content order.content ≡ some content

unpaid_status :
    (r : RegisterStatus)
    → (r == RegisterStatus.confirm_payment) ≡ true
    → r ≡ RegisterStatus.confirm_payment
unpaid_status r e = ground (arith, e)

open_status : (r : OrderStatus) → (r == OrderStatus.default) ≡ true → r ≡ OrderStatus.default
open_status r e = ground (arith, e)

old_order_check-Waiting :
    (v : Service) (chain_type : ChainType) (address account : Name) (s : Site)
    (content : OrderContent) (t : Site)
    → Comes (old_order_check v chain_type address account) s content t
    → Waiting v chain_type address account s content
unfolding old_order_check get_latest_register_order_by_self
old_order_check-Waiting v chain_type address account s content t e =
    let (s1, same, _, e1) = after_read _ _ _ s content t e in
    let (order, found, e2) = after_option _ _ _ s1 content t e1 in
    let (unpaid, e3) = after_guard _ _ _ s1 content t e2 in
    let (is_open, e4) = after_guard _ _ _ s1 content t e3 in
    let (content_eq, _) = option-Comes _ _ s1 content t e4 in
    let (among, matches) = first_order-Among _ s.world.db.orders order found in
    record {
      order = order;
      among = among;
      of_account = ground (arith, matches);
      of_address = (ground (arith, matches), ground (arith, matches));
      unpaid = unpaid_status order.register_status unpaid;
      is_open = open_status order.order_status is_open;
      content_eq = content_eq;
    }

found_none :
    (id : Name) (xs : List Order) (x : Order)
    → found_order id xs ≡ none
    → Among x xs
    → x.order_id ≢ id
found_none id [] x e m = absurd m
found_none id (y ∷ xs) x e (inl same) = λ q.
    let y_id : (y.order_id == id) ≡ true =
      subst (λ z. (z.order_id == id) ≡ true) same (rw q (ground arith)) in
    cc (first_found y_id)
  where
    first_found : (y.order_id == id) ≡ true → Option.some y ≡ none
    first_found holds = ground (arith, holds, e)
found_none id (y ∷ xs) x e (inr later) = found_none id xs x (rest_none (y.order_id == id) e) later
  where
    rest_none :
        (b : Bool) → (if b then some y else found_order id xs) ≡ none → found_order id xs ≡ none
    rest_none true h = cc h
    rest_none false h = h

-- A request to change that is done: the order that waited, and the one that was made in its place.
pub record Changed (v : Service) (req : ReqOrderChange) (s : Site) (r : RespOrder) (t : Site)
    : Type 0 where
  pub chain_type : ChainType
  pub address : Name
  pub formatted : v.format_chain_type_address req.key_info ≡ some (chain_type, address)
  pub content : OrderContent
  pub old : Waiting v chain_type address (v.to_lower req.account) s content
  pub base : ReqOrderRegisterBase
  pub amounts : Amounts v
  pub payable : is_payable v amounts ≡ true
  pub stored :
      StoredFor
        (register_draft v
          (as_register req chain_type address (v.to_lower req.account) content.account_char_str)
          (record base { channel_account = whitelisted v base })
          amounts)
        s
        r
        t

do_new_order-Stored :
    (v : Service) (req : ReqOrderRegister) (base : ReqOrderRegisterBase) (old : OrderContent)
    (s : Site) (r : RespOrder) (t : Site)
    → Comes (do_new_order v req base old) s r t
    → (a : Amounts v) × (is_payable v a ≡ true)
      × StoredFor
          (register_draft v req (record base { channel_account = whitelisted v base }) a)
          s
          r
          t
unfolding do_new_order
do_new_order-Stored v req base old s r t e =
    let (args, _, e1) = after_option _ _ _ s r t e in
    let (a, _, e2) = after_option _ _ _ s r t e1 in
    let (payable, e3) = after_guard _ _ _ s r t e2 in
    (
      a,
      payable,
      place_order-Stored v
          (register_draft v req (record base { channel_account = whitelisted v base }) a)
          a.total_pay_token s r t e3,
    )

Waiting-before :
    (v : Service) (chain_type : ChainType) (address account : Name) (s s' : Site)
    (content : OrderContent)
    → s'.world.db ≡ s.world.db
    → Waiting v chain_type address account s' content
    → Waiting v chain_type address account s content
Waiting-before v chain_type address account s s' content same w = record {
  order = w.order;
  among = subst (λ db. Among w.order db.orders) same w.among;
  of_account = w.of_account;
  of_address = w.of_address;
  unpaid = w.unpaid;
  is_open = w.is_open;
  content_eq = w.content_eq;
}

do_order_change-Changed :
    (v : Service) (req : ReqOrderChange) (s : Site) (r : RespOrder) (t : Site)
    → Comes (do_order_change v req) s r t
    → Changed v req s r t
unfolding do_order_change
do_order_change-Changed v req s r t e =
    let (_, e1) = after_guard _ _ _ s r t e in
    let (_, e2) = after_guard _ _ _ s r t e1 in
    let (addr, formatted, e3) = after_option _ _ _ s r t e2 in
    let (_, s4, same4, _, e4) =
      after_check SameDb _ _ s r t (check_system_upgrade-Stays SameDb SameDb-SiteOrder v) e3 in
    let (_, s5, same5, _, e5) =
      after_check SameDb _ _ s4 r t (check_latest-Stays SameDb SameDb-SiteOrder v) e4 in
    let (base, s6, same6, _, e6) =
      after_step SameDb _ _ s5 r t (check_order_info-Stays SameDb SameDb-SiteOrder v _ _ req.base)
        e5 in
    let (content, s7, same7, checked, e7) =
      after_step SameDb _ _ s6 r t (old_order_check-Stays SameDb SameDb-SiteOrder v _ _ _) e6 in
    let before = same6 ∙ (same5 ∙ same4) in
    let asked : ReqOrderRegister =
      as_register req addr.0 addr.1 (v.to_lower req.account) content.account_char_str in
    let (a, payable, stored) = do_new_order-Stored v asked base content s7 r t e7 in
    record {
      chain_type = addr.0;
      address = addr.1;
      formatted = formatted;
      content = content;
      old =
          Waiting-before v addr.0 addr.1 (v.to_lower req.account) s s6 content before (
            old_order_check-Waiting v addr.0 addr.1 (v.to_lower req.account) s6 content s7 checked);
      base = base;
      amounts = a;
      payable = payable;
      stored =
          StoredFor-before
            (register_draft v asked (record base { channel_account = whitelisted v base }) a) s s7 r
            t (same7 ∙ before) stored;
    }

-- A request to change that is done has left the old order as it was, open and with the register status
-- of a payment to be confirmed, beside the new one, which has them too and is not paid: both are among
-- the orders, with two ids, for one account and one address.
pub do_order_change-both_open :
    (v : Service) (req : ReqOrderChange) (s : Site) (r : RespOrder) (t : Site)
    → do_order_change v req s ≡ (done r, t)
    → (old : Order) × (new : Order) × Among old t.world.db.orders
      × Among new t.world.db.orders
      × (old.order_id ≢ new.order_id)
      × (new.order_id ≡ r.order_id)
      × (old.account_id ≡ new.account_id)
      × ((old.chain_type ≡ new.chain_type) × (old.address ≡ new.address))
      × ((old.register_status ≡ RegisterStatus.confirm_payment)
          × (new.register_status ≡ RegisterStatus.confirm_payment))
      × ((old.order_status ≡ OrderStatus.default) × (new.order_status ≡ OrderStatus.default))
      × Among old s.world.db.orders
      × (new.pay_status ≡ TxStatus.default)
unfolding register_draft
do_order_change-both_open v req s r t e =
    let changed = do_order_change-Changed v req s r t e in
    let old = changed.old in
    let (o, of_draft, stored) = changed.stored in
    let new : Order = record o { id = suc (length s.world.db.orders) } in
    (
      old.order,
      new,
      subst (λ xs. Among old.order xs) (sym stored.grown)
          (Among-append s.world.db.orders (new ∷ []) old.order old.among),
      subst (λ xs. Among new xs) (sym stored.grown) (Among-last s.world.db.orders new),
      found_none o.order_id s.world.db.orders old.order stored.fresh old.among,
      of_draft.id_eq,
      old.of_account ∙ sym of_draft.account_eq.0,
      (old.of_address.0 ∙ sym of_draft.owner_eq.0, old.of_address.1 ∙ sym of_draft.owner_eq.1),
      (old.unpaid, of_draft.statuses_eq.0),
      (old.is_open, of_draft.statuses_eq.2),
      old.among,
      of_draft.statuses_eq.1,
    )
