-- ===== src/Handle/Free.antt =====
-- What the checks of `doOrderRegister` say of the tables when they let a request through.
use mathlib.Core.Path.{subst}
use das_register.Prelude.{
  ◌≤◌, ◌<◌, true, false, Option, none, some, List, ◌≡◌, refl, ◌∙◌, sym, ap, arith, ◌&&◌, length,
  filter, find?, All, nat_coded, ◌==◌, ◌<?◌,
}
use das_register.Tables.Names.{Name, ChainType, pay_token_coded}
use das_register.Tables.Order.{
  Order, TxStatus, OrderStatus, RegisterStatus, SearchStatus, search_status_coded, tx_status_coded,
  format_register_status_to_search_status, order_status_coded, register_status_coded,
}
use das_register.Tables.Rest.{AccountInfo, AccountStatus, format_account_status}
use das_register.Dao.Store.{Db, Done}
use das_register.Dao.Latest.{progress, first_order-Below}
use das_register.Dao.Queries.{
  get_account_info_by_account_id, get_un_pay_order_count, get_latest_register_order_by_latest,
  first_order, is_register_of,
}
use das_register.Handle.Reply.{Site}
use das_register.Handle.Service.{Service}
use das_register.Handle.Place.{check_chain_type}
use das_register.Handle.Search.{
  ReqAccountSearch, AccountBase, check_account_base, base_from, check_other_address_order,
  latest_status,
}
use das_register.Handle.Register.{
  ReqOrderRegister, ReqOrderRegisterBase, at_address, check_request, check_order_info,
  check_register_able,
}
use das_register.Handle.Reads.{
  check_system_upgrade-Stays, check_latest-Stays, check_inviter-Stays, check_channel-Stays,
  check_account_char_set-Stays, check_account_base-Stays, check_address_order-Stays,
  check_other_address_order-Stays,
}
use das_register.Handle.Errors.{SameDb, SameDb-SiteOrder}
use das_register.Handle.Done.{
  Comes, guard-Comes, reply-Comes, after_guard, after_option, after_read, after_step, after_check,
}

-- The orders of an address that are open and not paid.
abbrev pub un_paid : ChainType → Name → List Order → List Order
un_paid chain_type address = filter (λ o.
    o.chain_type == chain_type
    && o.address == address
    && o.order_status == OrderStatus.default
    && o.pay_status == TxStatus.default)

-- `check_request` is done: the address is one of a chain that registers, and has few orders.
pub record Asked (v : Service) (req : ReqOrderRegister) (s : Site) (asked : ReqOrderRegister)
    : Type 0 where
  pub chain_type : ChainType
  pub address : Name
  pub formatted : v.format_chain_type_address req.search.key_info ≡ some (chain_type, address)
  pub registers : check_chain_type v chain_type ≡ true
  pub few : length (un_paid chain_type address s.world.db.orders) ≤ 300
  pub asked_eq : asked ≡ at_address req chain_type address

pub check_request-Asked :
    (v : Service) (req : ReqOrderRegister) (s : Site) (asked : ReqOrderRegister) (t : Site)
    → Comes (check_request v req) s asked t
    → Asked v req s asked
unfolding check_request get_un_pay_order_count
check_request-Asked v req s asked t e =
    let (_, e1) = after_guard _ _ _ s asked t e in
    let (_, e2) = after_guard _ _ _ s asked t e1 in
    let (addr, formatted, e3) = after_option _ _ _ s asked t e2 in
    let (registers, e4) = after_guard _ _ _ s asked t e3 in
    let (_, s5, same5, _, e5) =
      after_check SameDb _ _ s asked t (check_system_upgrade-Stays SameDb SameDb-SiteOrder v) e4 in
    let (_, s6, same6, _, e6) =
      after_check SameDb _ _ s5 asked t (check_latest-Stays SameDb SameDb-SiteOrder v) e5 in
    let (s7, _, _, e7) = after_read _ _ _ s6 asked t e6 in
    let (few, e8) = after_guard _ _ _ s7 asked t e7 in
    let (answered, _) = reply-Comes _ asked s7 t e8 in
    record {
      chain_type = addr.0;
      address = addr.1;
      formatted = formatted;
      registers = registers;
      few =
          subst (λ db. length (un_paid addr.0 addr.1 db.orders) ≤ 300) (same6 ∙ same5)
            (ground (arith, few));
      asked_eq = sym answered;
    }

-- The account is not there to be had by anybody else: no row of it counts as registered, and no order
-- for it that is open is as far as the pre-registration.
pub record Free (v : Service) (account : Name) (db : Db) : Type 0 where
  pub not_registered :
      (acc : AccountInfo)
      → find? (λ a. a.account_id == v.account_id account) db.accounts ≡ some acc
      → acc.status ≡ AccountStatus.not_open_register
  pub not_taken :
      All
        (λ o.
          (is_register_of (v.account_id account) o && o.order_status == OrderStatus.default) ≡ true
          → progress o < 3)
        db.orders

able_status :
    (status : AccountStatus)
    → (format_account_status status == SearchStatus.register_able) ≡ true
    → status ≡ AccountStatus.not_open_register
unfolding format_account_status
able_status AccountStatus.not_open_register e = refl
able_status AccountStatus.normal e = cc e
able_status AccountStatus.on_sale e = cc e
able_status AccountStatus.on_auction e = cc e
able_status AccountStatus.on_cross e = cc e
able_status AccountStatus.on_approval e = cc e
able_status AccountStatus.on_upgrade e = cc e

early_status :
    (status : RegisterStatus)
    → (format_register_status_to_search_status status <? SearchStatus.registering) ≡ true
    → register_status_coded.code status < 3
unfolding format_register_status_to_search_status
early_status RegisterStatus.default e = omega arith
early_status RegisterStatus.confirm_payment e = omega arith
early_status RegisterStatus.apply_register e = omega arith
early_status RegisterStatus.pre_register e = cc e
early_status RegisterStatus.proposal e = cc e
early_status RegisterStatus.confirm_proposal e = cc e
early_status RegisterStatus.registered e = cc e

base_able :
    (v : Service) (req : ReqAccountSearch) (found : Option AccountInfo) (acc : AccountInfo)
    (s : Site) (account_base : AccountBase) (t : Site)
    → found ≡ some acc
    → Comes (base_from v req found) s account_base t
    → (account_base.status == SearchStatus.register_able) ≡ true
    → acc.status ≡ AccountStatus.not_open_register
base_able v req none acc s account_base t f e able = cc f
base_able v req (some x) acc s account_base t f e able =
    let (answered, _) = reply-Comes _ account_base s t e in
    let same : x ≡ acc = cc f in
    subst (λ a. a.status ≡ AccountStatus.not_open_register) same
      (able_status x.status
        (subst (λ b. (b.status == SearchStatus.register_able) ≡ true) (sym answered) able))

account_base-able :
    (v : Service) (req : ReqAccountSearch) (s : Site) (account_base : AccountBase) (t : Site)
    → Comes (check_account_base v req) s account_base t
    → (account_base.status == SearchStatus.register_able) ≡ true
    → (acc : AccountInfo)
    → find? (λ a. a.account_id == v.account_id req.account) s.world.db.accounts ≡ some acc
    → acc.status ≡ AccountStatus.not_open_register
unfolding check_account_base get_account_info_by_account_id
account_base-able v req s account_base t e able acc f =
    let (s1, _, _, e1) = after_read _ _ _ s account_base t e in
    base_able v req _ acc s1 account_base t f e1 able

latest_early :
    (account_id : Name) (db : Db) (r : Order)
    → (latest_status (
          first_order (
            filter
              (λ o. is_register_of account_id o && o.order_status == OrderStatus.default)
              db.orders))
        <? SearchStatus.registering)
      ≡ true
    → first_order (
        filter
          (λ o. is_register_of account_id o && o.order_status == OrderStatus.default)
          db.orders)
      ≡ some r
    → progress r < 3
latest_early account_id db r early found =
    early_status r.register_status
      (subst (λ o. (latest_status o <? SearchStatus.registering) ≡ true) found early)

opens_lem :
    (account_id : Name) (o : Order)
    → (is_register_of account_id o && o.order_status == OrderStatus.default) ≡ true
    → o.order_status ≡ OrderStatus.default
opens_lem account_id o h = ground (arith, h)

latest-taken :
    (v : Service) (req : ReqAccountSearch) (s : Site) (latest : SearchStatus) (t : Site)
    → Comes (check_other_address_order v req) s latest t
    → (latest <? SearchStatus.registering) ≡ true
    → All
        (λ o.
          (is_register_of (v.account_id req.account) o && o.order_status == OrderStatus.default)
            ≡ true
          → progress o < 3)
        s.world.db.orders
unfolding check_other_address_order get_latest_register_order_by_latest
latest-taken v req s latest t e early =
    let (s1, same, _, e1) = after_read _ _ _ s latest t e in
    let (answered, _) = reply-Comes _ latest s1 t e1 in
    first_order-Below
      (λ o. is_register_of (v.account_id req.account) o && o.order_status == OrderStatus.default)
      (opens_lem (v.account_id req.account)) 3 s.world.db.orders
      (λ r found.
        latest_early (v.account_id req.account) s.world.db r
          (subst (λ x. (x <? SearchStatus.registering) ≡ true) (sym answered) early) found)

pub check_register_able-Free :
    (v : Service) (req : ReqAccountSearch) (s : Site) (u : Done) (t : Site)
    → Comes (check_register_able v req) s u t
    → Free v req.account s.world.db
unfolding check_register_able
check_register_able-Free v req s u t e =
    let (_, s1, same1, _, e1) =
      after_check SameDb _ _ s u t (check_account_char_set-Stays SameDb SameDb-SiteOrder v _ _) e in
    let (account_base, s2, same2, based, e2) =
      after_step SameDb _ _ s1 u t (check_account_base-Stays SameDb SameDb-SiteOrder v req) e1 in
    let (able, e3) = after_guard _ _ _ s2 u t e2 in
    let (own, s4, same4, _, e4) =
      after_step SameDb _ _ s2 u t (check_address_order-Stays SameDb SameDb-SiteOrder v req false)
        e3 in
    let (_, e5) = after_guard _ _ _ s4 u t e4 in
    let (latest, s6, _, found, e6) =
      after_step SameDb _ _ s4 u t (check_other_address_order-Stays SameDb SameDb-SiteOrder v req)
        e5 in
    let (early, _) = guard-Comes _ _ s6 u t e6 in
    let free1 : (acc : AccountInfo)
        → find? (λ a. a.account_id == v.account_id req.account) s1.world.db.accounts ≡ some acc
        → acc.status ≡ AccountStatus.not_open_register =
      account_base-able v req s1 account_base s2 based able in
    record {
      not_registered = λ acc f.
          free1 acc (
            ap (λ db. find? (λ a. a.account_id == v.account_id req.account) db.accounts) same1 ∙ f);
      not_taken =
          subst
            (λ db.
              All
                (λ o.
                  (is_register_of (v.account_id req.account) o
                      && o.order_status == OrderStatus.default)
                    ≡ true
                  → progress o < 3)
                db.orders)
            (same4 ∙ (same2 ∙ same1)) (latest-taken v req s4 latest s6 found early);
    }

pub check_order_info-years :
    (v : Service) (coin_type cross_coin_type : Name) (base b : ReqOrderRegisterBase) (s t : Site)
    → Comes (check_order_info v coin_type cross_coin_type base) s b t
    → (0 < base.register_years)
      × (base.register_years ≤ v.cfg.max_register_years)
      × (b.register_years ≡ base.register_years)
      × (b.inviter_account ≡ base.inviter_account)
unfolding check_order_info
check_order_info-years v coin_type cross_coin_type base b s t e =
    let (years, e1) = after_guard _ _ _ s b t e in
    let (_, s2, _, _, e2) =
      after_check SameDb _ _ s b t (check_inviter-Stays SameDb SameDb-SiteOrder v _) e1 in
    let (channel, s3, _, _, e3) =
      after_step SameDb _ _ s2 b t (check_channel-Stays SameDb SameDb-SiteOrder v _) e2 in
    let (_, e4) = after_guard _ _ _ s3 b t e3 in
    let (_, e5) = after_guard _ _ _ s3 b t e4 in
    let (answered, _) = reply-Comes _ b s3 t e5 in
    (
      ground (arith, years),
      ground (arith, years),
      ap (λ x. x.register_years) (sym answered),
      ap (λ x. x.inviter_account) (sym answered),
    )
