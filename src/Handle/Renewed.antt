-- ===== src/Handle/Renewed.antt =====
-- When a request to renew, or the hash of a payment, is done.
use mathlib.Core.Path.{subst}
use das_register.Prelude.{
  ℕ, ◌+◌, ◌%◌, ◌^◌, ◌≤◌, ◌<◌, true, some, none, refl, ◌∷◌, [], ◌++◌, suc, length, ◌≡◌, ◌≢◌, ◌∙◌,
  arith, not, find?, ap, sym, Option, false, if◌then◌else◌, nat_coded, ◌==◌,
}
use das_register.Tables.Names.{Name, ChainType, DasAction, pay_token_coded}
use das_register.Tables.Order.{Order, OrderContent, TxStatus}
use das_register.Tables.Pay.{PayInfo, OrderTxStatus}
use das_register.Tables.Rest.{AccountInfo, AccountStatus, account_status_coded}
use das_register.Dao.Store.{Db, Done, exec, exec-Outcome}
use das_register.Dao.Rows.{insert_pay}
use das_register.Dao.Payments.{create_order_pay_info}
use das_register.Dao.Queries.{get_account_info_by_account_id, get_order_by_order_id}
use das_register.Handle.Reply.{Site, done}
use das_register.Handle.Service.{Service, seconds}
use das_register.Handle.Amounts.{Amounts, is_payable}
use das_register.Handle.Place.{RespOrder}
use das_register.Handle.Change.{
  ReqOrderRenew, is_after_grace, check_renew_order, renew_draft, do_renew_order, do_order_renew,
  ReqOrderPayHash, pay_info_of, do_order_pay_hash,
}
use das_register.Handle.Rules.{branch-Stays, reply-Stays}
use das_register.Handle.Reads.{
  check_system_upgrade-Stays, check_latest-Stays, check_balance-Stays, check_renew_order-Stays,
}
use das_register.Handle.Errors.{SameDb, SameDb-SiteOrder}
use das_register.Handle.Done.{
  Comes, after_guard, after_option, after_read, after_step, after_check, store-Comes,
}
use das_register.Handle.Stored.{
  Stored, Unpaid, IsOrderOf-Unpaid, StoredFor, Stored-before, place_order-Stored, found_order,
}
use das_register.Handle.Accepted.{StoredFor-before}

-- The account can be renewed at the time `now`, for that many years.
pub record Renewable (v : Service) (account : Name) (renew_years : ℕ) (s : Site) : Type 0 where
  pub acc : AccountInfo
  pub row : find? (λ a. a.account_id == v.account_id account) s.world.db.accounts ≡ some acc
  pub years_fit : (1 ≤ renew_years) × (renew_years ≤ v.cfg.max_register_years)
  pub no_sub_account : acc.parent_account_id ≡ 0
  pub not_on_cross : acc.status ≢ AccountStatus.on_cross
  pub grace : ℕ
  pub grace_eq : v.expiration_grace_period ≡ some grace
  pub in_time : seconds v < (acc.expired_at + grace) % 2 ^ 64
  pub no_overflow : (acc.expired_at + grace) % 2 ^ 64 < 2 ^ 63

is_in_time :
    (grace : ℕ) (acc : AccountInfo) (now : ℕ)
    → not (is_after_grace grace acc now) ≡ true
    → (now < (acc.expired_at + grace) % 2 ^ 64) × ((acc.expired_at + grace) % 2 ^ 64 < 2 ^ 63)
unfolding is_after_grace
is_in_time grace acc now e = ground (arith, e)

not_cross :
    (status : AccountStatus)
    → not (status == AccountStatus.on_cross) ≡ true
    → status ≢ AccountStatus.on_cross
not_cross status e = λ same. cc (subst (λ x. not (x == AccountStatus.on_cross) ≡ true) same e)

check_renew_order-Renewable :
    (v : Service) (account : Name) (renew_years : ℕ) (s : Site) (acc : AccountInfo) (t : Site)
    → Comes (check_renew_order v account renew_years) s acc t
    → Renewable v account renew_years s
unfolding check_renew_order get_account_info_by_account_id
check_renew_order-Renewable v account renew_years s acc t e =
    let (years, e1) = after_guard _ _ _ s acc t e in
    let (s2, _, _, e2) = after_read _ _ _ s acc t e1 in
    let (found, row, e3) = after_option _ _ _ s2 acc t e2 in
    let (parent, e4) = after_guard _ _ _ s2 acc t e3 in
    let (cross, e5) = after_guard _ _ _ s2 acc t e4 in
    let (grace, grace_eq, e6) = after_option _ _ _ s2 acc t e5 in
    let (in_time, e7) = after_guard _ _ _ s2 acc t e6 in
    let (soon, small) = is_in_time grace found (seconds v) in_time in
    record {
      acc = found;
      row = row;
      years_fit = (ground (arith, years), ground (arith, years));
      no_sub_account = ground (arith, parent);
      not_on_cross = not_cross found.status cross;
      grace = grace;
      grace_eq = grace_eq;
      in_time = soon;
      no_overflow = small;
    }

do_renew_order-Stored :
    (v : Service) (req : ReqOrderRenew) (chain_type : ChainType) (address account : Name)
    (acc : AccountInfo) (s : Site) (r : RespOrder) (t : Site)
    → Comes (do_renew_order v req chain_type address account acc) s r t
    → (a : Amounts v) × (is_payable v a ≡ true)
      × StoredFor (renew_draft v req chain_type address account a) s r t
unfolding do_renew_order
do_renew_order-Stored v req chain_type address account acc s r t e =
    let (count, _, e1) = after_option _ _ _ s r t e in
    let (a, _, e2) = after_option _ _ _ s r t e1 in
    let (payable, e3) = after_guard _ _ _ s r t e2 in
    let (_, s4, same4, _, e4) =
      after_check SameDb _ _ s r t
        (branch-Stays SameDb SameDb-SiteOrder _
          (check_balance-Stays SameDb SameDb-SiteOrder v _ _ _)
          (reply-Stays SameDb SameDb-SiteOrder tt))
        e3 in
    (
      a,
      payable,
      StoredFor-before (renew_draft v req chain_type address account a) s s4 r t same4 (
          place_order-Stored v (renew_draft v req chain_type address account a) a.total_pay_token s4
            r t e4),
    )

pub record Renewed (v : Service) (req : ReqOrderRenew) (s : Site) (r : RespOrder) (t : Site)
    : Type 0 where
  pub chain_type : ChainType
  pub address : Name
  pub formatted : v.format_chain_type_address req.key_info ≡ some (chain_type, address)
  pub renewable : Renewable v (v.to_lower req.account) req.renew_years s
  pub order : Order
  pub content : OrderContent
  pub unpaid :
      Unpaid DasAction.renew_account
        (v.account_id (v.to_lower req.account))
        (v.to_lower req.account)
        chain_type
        address
        req.pay_token_id
        content
        r
        order
  pub years : content.renew_years ≡ req.renew_years
  pub stored : Stored s t order

Renewable-before :
    (v : Service) (account : Name) (years : ℕ) (s s' : Site)
    → s'.world.db ≡ s.world.db
    → Renewable v account years s'
    → Renewable v account years s
Renewable-before v account years s s' same h = record {
  acc = h.acc;
  row =
      subst (λ db. find? (λ a. a.account_id == v.account_id account) db.accounts ≡ some h.acc) same
        h.row;
  years_fit = h.years_fit;
  no_sub_account = h.no_sub_account;
  not_on_cross = h.not_on_cross;
  grace = h.grace;
  grace_eq = h.grace_eq;
  in_time = h.in_time;
  no_overflow = h.no_overflow;
}

-- A request to renew that is done is for an account of the table that is no sub-account, has not
-- moved to another chain and whose grace period is not over, for a number of years within the limit;
-- and it has added an order of that address to renew that account, in the token and for the years asked
-- for, that is open, is not paid and has a new id, which finds it.
pub do_order_renew-Renewed :
    (v : Service) (req : ReqOrderRenew) (s : Site) (r : RespOrder) (t : Site)
    → do_order_renew v req s ≡ (done r, t)
    → Renewed v req s r t
unfolding do_order_renew renew_draft
do_order_renew-Renewed v req s r t e =
    let (_, e1) = after_guard _ _ _ s r t e in
    let (_, e2) = after_guard _ _ _ s r t e1 in
    let (addr, formatted, e3) = after_option _ _ _ s r t e2 in
    let (_, s4, same4, _, e4) =
      after_check SameDb _ _ s r t (check_system_upgrade-Stays SameDb SameDb-SiteOrder v) e3 in
    let (_, s5, same5, _, e5) =
      after_check SameDb _ _ s4 r t (check_latest-Stays SameDb SameDb-SiteOrder v) e4 in
    let (acc, s6, same6, checked, e6) =
      after_step SameDb _ _ s5 r t (check_renew_order-Stays SameDb SameDb-SiteOrder v _ _) e5 in
    let (a, _, (o, of_draft, stored)) =
      do_renew_order-Stored v req addr.0 addr.1 (v.to_lower req.account) acc s6 r t e6 in
    record {
      chain_type = addr.0;
      address = addr.1;
      formatted = formatted;
      renewable = Renewable-before v (v.to_lower req.account) req.renew_years s s5 (same5 ∙ same4) (
          check_renew_order-Renewable v (v.to_lower req.account) req.renew_years s5 acc s6 checked);
      order = o;
      content = _;
      unpaid =
          IsOrderOf-Unpaid (renew_draft v req addr.0 addr.1 (v.to_lower req.account) a) r o _ refl
            refl of_draft;
      years = refl;
      stored = Stored-before s s6 t o (same6 ∙ (same5 ∙ same4)) stored;
    }

-- What a row that was inserted means for the table of payments: its hash was in no row, and the row is
-- the last one.
insert_pay-grown :
    (p : PayInfo) (db db' : Db)
    → insert_pay p db ≡ some db'
    → (find? (λ x. x.hash == p.hash) db.pays ≡ none)
      × (db'.pays ≡ db.pays ++ record p { id = suc (length db.pays) } ∷ [])
insert_pay-grown p db db' e = by_found (find? (λ x. x.hash == p.hash) db.pays) e
  where
    grown : Db
    grown = record db { pays = db.pays ++ record p { id = suc (length db.pays) } ∷ [] }

    by_found :
        (found : Option PayInfo)
        → (if elim found [ none ↦ false | some _ ↦ true ] then none else Option.some grown)
          ≡ some db'
        → (found ≡ none) × (db'.pays ≡ db.pays ++ record p { id = suc (length db.pays) } ∷ [])
    by_found none e' = (refl, let same : grown ≡ db' = cc e' in ap (λ d. d.pays) (sym same))
    by_found (some x) e' = cc e'

-- The payment that a hash is stored as: it is not confirmed, and no refund of it was asked for.
pub record Reported (req : ReqOrderPayHash) (chain_type : ChainType) (address account_id : Name)
    (p : PayInfo) : Type 0 where
  pub of_hash : p.hash ≡ req.pay_hash
  pub of_order : p.order_id ≡ req.order_id
  pub of_account : p.account_id ≡ account_id
  pub of_payer : (p.chain_type ≡ chain_type) × (p.address ≡ address)
  pub not_confirmed : p.status ≡ OrderTxStatus.default
  pub not_refunded : p.refund_status ≡ TxStatus.default

-- The hash of a payment that is taken is one for an order of the asker, by its chain and address, and
-- of the account asked for, and was new: no row of the payments had it. It is stored as the last row,
-- for that order and its account, not confirmed yet.
pub do_order_pay_hash-stored :
    (v : Service) (req : ReqOrderPayHash) (s : Site) (u : Done) (t : Site)
    → do_order_pay_hash v req s ≡ (done u, t)
    → (order : Order) × (chain_type : ChainType) × (address : Name) × (v.format_chain_type_address
          req.key_info
        ≡ some (chain_type, address))
      × (found_order req.order_id s.world.db.orders ≡ some order)
      × ((order.chain_type ≡ chain_type) × (v.equal_fold address order.address ≡ true))
      × (v.equal_fold order.account (v.to_lower req.account) ≡ true)
      × (find? (λ x. x.hash == req.pay_hash) s.world.db.pays ≡ none)
      × ((p : PayInfo) × Reported req chain_type address order.account_id p
          × (t.world.db.pays ≡ s.world.db.pays ++ p ∷ []))
unfolding do_order_pay_hash get_order_by_order_id create_order_pay_info pay_info_of
do_order_pay_hash-stored v req s u t e =
    let (_, e1) = after_guard _ _ _ s u t e in
    let (addr, formatted, e2) = after_option _ _ _ s u t e1 in
    let (s3, same3, _, e3) = after_read _ _ _ s u t e2 in
    let (order, found, e4) = after_option _ _ _ s3 u t e3 in
    let (account, e5) = after_guard _ _ _ s3 u t e4 in
    let (owner, e6) = after_guard _ _ _ s3 u t e5 in
    let (does, _) =
      store-Comes (insert_pay (pay_info_of v req addr.0 addr.1 order)) _
        (exec (insert_pay (pay_info_of v req addr.0 addr.1 order))) s3 u t
        (exec-Outcome (insert_pay (pay_info_of v req addr.0 addr.1 order)) s3.world) e6 in
    let does' : insert_pay (pay_info_of v req addr.0 addr.1 order) s.world.db ≡ some t.world.db =
      subst (λ db. insert_pay (pay_info_of v req addr.0 addr.1 order) db ≡ some t.world.db) same3
        does in
    let (fresh, grown) =
      insert_pay-grown (pay_info_of v req addr.0 addr.1 order) s.world.db t.world.db does' in
    (
      order,
      addr.0,
      addr.1,
      formatted,
      found,
      (ground (arith, owner), ground (arith, owner)),
      account,
      fresh,
      (
        _,
        record {
          of_hash = refl;
          of_order = refl;
          of_account = refl;
          of_payer = (refl, refl);
          not_confirmed = refl;
          not_refunded = refl;
        },
        grown,
      ),
    )
