-- ===== src/Handle/Reads.antt =====
-- The steps of the handlers that only read, which leave the site as it was but for the faults.
use das_register.Prelude.{true, ℕ, Bool, false, Option, none, some, List, nat_coded, ◌==◌}
use das_register.Tables.Names.{Name, ChainType, AccountCharSet, pay_token_coded}
use das_register.Tables.Order.{
  Order, SearchStatus, search_status_coded, order_type_coded, register_status_coded,
  order_status_coded,
}
use das_register.Tables.Rest.{AccountInfo, account_status_coded}
use das_register.Dao.Others.{get_coupon_by_code}
use das_register.Dao.Queries.{
  get_latest_register_order_by_address, get_latest_register_order_by_latest,
  get_account_info_by_account_id, get_pay_info_by_order_id, get_order_tx_list_by_order_id,
  get_un_pay_order_count, get_latest_register_order_by_self,
}
use das_register.Dao.Store.{Db, query}
use das_register.Handle.Reply.{
  ApiCode, Site, Handler, from_dao, ◌>>=◌, ◌>>◌, guard, from_option, reply, reject, branch,
}
use das_register.Handle.Service.{Service, BalanceError}
use das_register.Handle.Text.{check_account_char_set}
use das_register.Handle.Coupon.{check_coupon, get_coupon_info, do_check_coupon}
use das_register.Handle.Search.{
  ReqAccountSearch, AccountBase, check_lucky_number, check_open, check_new_account, base_from,
  get_payment_tx, check_account_base, get_order_txs, order_answer, check_address_order,
  check_other_address_order, check_sub_account,
}
use das_register.Handle.Place.{
  check_system_upgrade, check_latest, check_balance, enough, check_balance_err,
}
use das_register.Handle.Register.{
  ReqOrderRegisterBase, ReqOrderRegister, inviter_fits, channel_of, check_inviter, check_channel,
  check_order_info, check_register_able, check_request,
}
use das_register.Handle.Change.{old_order_check, check_renew_order}
use das_register.Handle.Account.{
  RespAccountSearch, resp_from, with_address, search_args, search_orders, search_prices,
  search_account, search_sub_account, do_account_search,
}
use das_register.Handle.InternalOrder.{check_internal_renew, with_chars}
use das_register.Handle.Rules.{
  SiteOrder, Stays, reply-Stays, reject-Stays, guard-Stays, from_option-Stays, bind-Stays,
  also-Stays, branch-Stays, read-Stays,
}

module _ (R : Site → Site → Type 0) (order : SiteOrder R) where
  next :
      {A B : Type 0} {m : Handler A} {f : A → Handler B}
      → Stays R m
      → ((a : A) → Stays R (f a))
      → Stays R (m >>= f)
  next first keep = bind-Stays R order first keep

  also : {A B : Type 0} {m : Handler A} {k : Handler B} → Stays R m → Stays R k → Stays R (m >> k)
  also first keep = also-Stays R order first keep

  asked : (b : Bool) (code : ApiCode) → Stays R (guard b code)
  asked b code = guard-Stays R order b code

  taken : {A : Type 0} (o : Option A) (code : ApiCode) → Stays R (from_option o code)
  taken o code = from_option-Stays R order o code

  read : {A : Type 0} (code : ApiCode) (f : Db → A) → Stays R (from_dao code (query f))
  read code f = read-Stays R order code f

  answer : {A : Type 0} (a : A) → Stays R (reply a)
  answer a = reply-Stays R order a

  refusal : {A : Type 0} (code : ApiCode) → Stays R (reject {A = A} code)
  refusal code = reject-Stays R order code

  either :
      {A : Type 0} (b : Bool) {m k : Handler A} → Stays R m → Stays R k → Stays R (branch b m k)
  either b left right = branch-Stays R order b left right

  module _ (v : Service) where
    pub check_system_upgrade-Stays : Stays R (check_system_upgrade v)
    unfolding check_system_upgrade
    check_system_upgrade-Stays =
        also (asked _ _)
          (next (taken _ _) (λ status. also (asked _ _) (next (taken _ _) (λ is_ok. asked _ _))))

    pub check_latest-Stays : Stays R (check_latest v)
    unfolding check_latest
    check_latest-Stays = asked _ _

    enough-Stays : (e : Option BalanceError) → Stays R (enough e)
    enough-Stays none = answer tt
    enough-Stays (some e) = refusal (check_balance_err e)

    pub check_balance-Stays :
        (chain_type : ChainType) (address : Name) (amount : ℕ)
        → Stays R (check_balance v chain_type address amount)
    unfolding check_balance
    check_balance-Stays chain_type address amount = next (taken _ _) (λ das_lock. enough-Stays _)

    pub get_coupon_info-Stays : (code : Name) → Stays R (get_coupon_info v code)
    unfolding get_coupon_info get_coupon_by_code
    get_coupon_info-Stays code = also (asked _ _) (next (read _ _) (λ res. answer _))

    pub check_coupon-Stays : (code : Name) → Stays R (check_coupon v code)
    unfolding check_coupon get_coupon_by_code
    check_coupon-Stays code = also (asked _ _) (
        next (read _ _)
          (λ res. next (taken _ _) (λ card. also (asked _ _) (also (asked _ _) (answer card)))))

    inviter_fits-Stays : (acc : Option AccountInfo) → Stays R (inviter_fits v acc)
    inviter_fits-Stays none = refusal _
    inviter_fits-Stays (some acc) = either _ (refusal _) (either _ (refusal _) (answer tt))

    pub check_inviter-Stays : (account : Name) → Stays R (check_inviter v account)
    unfolding check_inviter get_account_info_by_account_id
    check_inviter-Stays account =
        either (account == 0) (answer tt) (next (read _ _) (λ acc. inviter_fits-Stays acc))

    pub check_channel-Stays : (channel : Name) → Stays R (check_channel v channel)
    unfolding check_channel get_account_info_by_account_id
    check_channel-Stays channel =
        either (channel == 0) (answer 0)
          (next (read _ _) (λ acc. answer (channel_of v channel acc)))

    pub check_order_info-Stays :
        (coin_type cross_coin_type : Name) (base : ReqOrderRegisterBase)
        → Stays R (check_order_info v coin_type cross_coin_type base)
    unfolding check_order_info
    check_order_info-Stays coin_type cross_coin_type base = also (asked _ _) (
        also (check_inviter-Stays base.inviter_account) (
          next (check_channel-Stays base.channel_account)
            (λ channel. also (asked _ _) (also (asked _ _) (answer _)))))

    pub check_account_char_set-Stays :
        (account : Name) (list : List AccountCharSet)
        → Stays R (check_account_char_set v account list)
    unfolding check_account_char_set
    check_account_char_set-Stays account list = also (asked _ _) (
        also (asked _ _)
          (also (asked _ _) (next (taken _ _) (λ chars. also (asked _ _) (asked _ _)))))

    check_lucky_number-Stays : (req : ReqAccountSearch) → Stays R (check_lucky_number v req)
    unfolding check_lucky_number
    check_lucky_number-Stays req = next (taken _ _) (λ lucky. answer _)

    check_open-Stays : (req : ReqAccountSearch) → Stays R (check_open v req)
    unfolding check_open
    check_open-Stays req =
        next (taken _ _) (λ tc. either _ (answer _) (check_lucky_number-Stays req))

    check_new_account-Stays : (req : ReqAccountSearch) → Stays R (check_new_account v req)
    unfolding check_new_account
    check_new_account-Stays req =
        either _ (answer _)
          (either _ (answer _) (either _ (refusal _) (either _ (check_open-Stays req) (answer _))))

    base_from-Stays :
        (req : ReqAccountSearch) (acc : Option AccountInfo) → Stays R (base_from v req acc)
    base_from-Stays req none = check_new_account-Stays req
    base_from-Stays req (some acc) = answer _

    pub check_account_base-Stays : (req : ReqAccountSearch) → Stays R (check_account_base v req)
    unfolding check_account_base get_account_info_by_account_id
    check_account_base-Stays req = next (read _ _) (λ acc. base_from-Stays req acc)

    get_payment_tx-Stays : (status : SearchStatus) (o : Order) → Stays R (get_payment_tx v status o)
    unfolding get_payment_tx get_pay_info_by_order_id
    get_payment_tx-Stays status o = next (read _ _) (λ p. answer _)

    get_order_txs-Stays : (status : SearchStatus) (o : Order) → Stays R (get_order_txs v status o)
    unfolding get_order_txs get_order_tx_list_by_order_id
    get_order_txs-Stays status o =
        next (either _ (get_payment_tx-Stays status o) (answer _))
          (λ shown. next (read _ _) (λ tx_list. answer _))

    order_answer-Stays : (with_txs : Bool) (o : Option Order) → Stays R (order_answer v with_txs o)
    order_answer-Stays with_txs none = answer _
    order_answer-Stays with_txs (some o) =
        either _ (either with_txs (get_order_txs-Stays _ o) (answer _)) (answer _)

    pub check_address_order-Stays :
        (req : ReqAccountSearch) (with_txs : Bool) → Stays R (check_address_order v req with_txs)
    unfolding check_address_order get_latest_register_order_by_address
        get_account_info_by_account_id
    check_address_order-Stays req with_txs =
        next (read _ _)
          (λ o. next (read _ _) (λ acc. either _ (answer _) (order_answer-Stays with_txs o)))

    pub check_other_address_order-Stays :
        (req : ReqAccountSearch) → Stays R (check_other_address_order v req)
    unfolding check_other_address_order get_latest_register_order_by_latest
    check_other_address_order-Stays req = next (read _ _) (λ o. answer _)

    pub check_sub_account-Stays : (req : ReqAccountSearch) → Stays R (check_sub_account v req)
    unfolding check_sub_account get_account_info_by_account_id
    check_sub_account-Stays req = next (read _ _) (λ acc. answer _)

    pub check_register_able-Stays : (req : ReqAccountSearch) → Stays R (check_register_able v req)
    unfolding check_register_able
    check_register_able-Stays req = also (check_account_char_set-Stays _ _) (
        next (check_account_base-Stays req) (λ account_base. also (asked _ _) (
          next (check_address_order-Stays req false) (λ own.
            also (asked _ _) (next (check_other_address_order-Stays req) (λ latest. asked _ _))))))

    pub check_request-Stays : (req : ReqOrderRegister) → Stays R (check_request v req)
    unfolding check_request get_un_pay_order_count
    check_request-Stays req = also (asked _ _) (
        also (asked _ _) (
          next (taken _ _) (λ addr. also (asked _ _) (
            also check_system_upgrade-Stays
              (also check_latest-Stays (next (read _ _) (λ n. also (asked _ _) (answer _))))))))

    pub old_order_check-Stays :
        (chain_type : ChainType) (address account : Name)
        → Stays R (old_order_check v chain_type address account)
    unfolding old_order_check get_latest_register_order_by_self
    old_order_check-Stays chain_type address account =
        next (read _ _)
          (λ found. next (taken _ _) (λ o. also (asked _ _) (also (asked _ _) (taken _ _))))

    pub check_renew_order-Stays :
        (account : Name) (years : ℕ) → Stays R (check_renew_order v account years)
    unfolding check_renew_order get_account_info_by_account_id
    check_renew_order-Stays account years = also (asked _ _) (
        next (read _ _) (λ found. next (taken _ _) (λ acc.
          also (asked _ _)
            (also (asked _ _) (next (taken _ _) (λ grace. also (asked _ _) (answer acc)))))))

    pub check_internal_renew-Stays :
        (account : Name) (years : ℕ) → Stays R (check_internal_renew v account years)
    unfolding check_internal_renew get_account_info_by_account_id
    check_internal_renew-Stays account years = also (asked _ _) (
        next (read _ _)
          (λ found. next (taken _ _) (λ acc. also (asked _ _) (also (asked _ _) (answer acc)))))

    pub with_chars-Stays : (search : ReqAccountSearch) → Stays R (with_chars v search)
    unfolding with_chars
    with_chars-Stays search = either _ (next (taken _ _) (λ chars. answer _)) (answer _)

    pub do_check_coupon-Stays : (coupon : Name) → Stays R (do_check_coupon v coupon)
    unfolding do_check_coupon
    do_check_coupon-Stays coupon = also (asked _ _) (get_coupon_info-Stays coupon)

    with_address-Stays : (req : ReqAccountSearch) → Stays R (with_address v req)
    unfolding with_address
    with_address-Stays req = either _ (answer req) (next (taken _ _) (λ addr. answer _))

    search_args-Stays : (req : ReqAccountSearch) → Stays R (search_args v req)
    unfolding search_args
    search_args-Stays req = either _ (answer 0) (taken _ _)

    search_orders-Stays :
        (req : ReqAccountSearch) (account_base : AccountBase) (resp : RespAccountSearch v)
        → Stays R (search_orders v req account_base resp)
    unfolding search_orders
    search_orders-Stays req account_base resp = next (check_address_order-Stays req true) (λ own.
        either _ (next (check_other_address_order-Stays req) (λ latest. answer _)) (answer _))

    search_prices-Stays :
        (req : ReqAccountSearch) (account_base : AccountBase)
        → Stays R (search_prices v req account_base)
    unfolding search_prices
    search_prices-Stays req account_base = next (search_args-Stays req) (λ args.
        next (taken _ _) (λ prices.
          search_orders-Stays req account_base
            (resp_from v req.account account_base (some prices))))

    search_account-Stays : (req : ReqAccountSearch) → Stays R (search_account v req)
    unfolding search_account
    search_account-Stays req = also (check_account_char_set-Stays _ _) (
        next (check_account_base-Stays req)
          (λ account_base. either _ (answer _) (search_prices-Stays req account_base)))

    search_sub_account-Stays : (req : ReqAccountSearch) → Stays R (search_sub_account v req)
    unfolding search_sub_account
    search_sub_account-Stays req = next (check_sub_account-Stays req) (λ found. answer _)

    pub do_account_search-Stays : (req : ReqAccountSearch) → Stays R (do_account_search v req)
    unfolding do_account_search
    do_account_search-Stays req =
        next (with_address-Stays (record req { account = v.to_lower req.account }))
          (λ asked. either _ (search_sub_account-Stays asked) (search_account-Stays asked))
