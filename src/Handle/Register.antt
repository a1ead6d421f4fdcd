-- ===== src/Handle/Register.antt =====
-- http_server/handle/order_register.go: `doOrderRegister`, the order of a new account, which is paid in
-- a token or by a gift card.
use das_register.Prelude.{
  ℕ, false, Option, none, some, not, ◌&&◌, ◌||◌, leb, ltb, contains, nat_coded, ◌==◌, ◌<?◌,
  if◌then◌else◌,
}
use das_register.Tables.Names.{
  Name, ChainType, DasAction, PayTokenId, pay_token_coded, coupon, ckb_das,
}
use das_register.Tables.Order.{
  Order, no_content, encoded, Content, TxStatus, RegisterStatus, SearchStatus, search_status_coded,
  is_token_id_ckb_internal,
}
use das_register.Tables.Rest.{AccountInfo, AccountStatus, account_status_coded, is_expired}
use das_register.Dao.Store.{Done}
use das_register.Dao.Orders.{create_coupon_order}
use das_register.Dao.Queries.{get_account_info_by_account_id, get_un_pay_order_count}
use das_register.Handle.Reply.{
  ApiCode, Reply, Site, done, rejected, Handler, done, rejected, reply, reject, ◌>>=◌, branch, ◌>>◌,
  from_dao, guard, from_option, params_invalid, db_error, error500, operation_frequent,
  inviter_account_not_exist, on_cross, un_available_account, reserved_account,
  not_open_for_registration, account_already_register, coupon_invalid,
}
use das_register.Handle.Service.{Service, seconds}
use das_register.Handle.Text.{acc_len, check_account_char_set}
use das_register.Handle.Coupon.{
  check_coupon, check_coupon_type, get_coupon_lock_with_redis, delete_coupon_lock_with_redis,
}
use das_register.Handle.Search.{
  ReqAccountSearch, check_account_base, check_address_order, check_other_address_order,
}
use das_register.Handle.Amounts.{Amounts, get_order_amount, is_payable, is_free}
use das_register.Handle.Place.{
  check_system_upgrade, check_latest, check_chain_type, check_balance, Draft, own_order, RespOrder,
  place_order,
}

-- `ReqOrderRegisterBase`. A negative number of years is refused as 0 is, and stands as 0 here.
pub record ReqOrderRegisterBase : Type 0 where
  pub register_years : ℕ
  pub inviter_account : Name
  pub channel_account : Name

-- `ReqOrderRegister`
pub record ReqOrderRegister : Type 0 where
  pub search : ReqAccountSearch
  pub base : ReqOrderRegisterBase
  pub pay_token_id : PayTokenId
  pub pay_type : Name
  pub coin_type : Name
  pub cross_coin_type : Name
  pub gift_card : Name

abbrev pub inviter_fits : Service → Option AccountInfo → Handler Done
inviter_fits v none = reject inviter_account_not_exist
inviter_fits v (some acc) =
    branch (acc.status == AccountStatus.on_cross) (reject on_cross)
      (branch (v.equal_fold acc.owner v.black_hole_address) (reject params_invalid) (reply tt))

unfoldable pub check_inviter : Service → Name → Handler Done
unfolding from_dao get_account_info_by_account_id
check_inviter v account = branch (account == 0) (reply tt) (do
  acc ← from_dao db_error (get_account_info_by_account_id (v.account_id account))
  inviter_fits v acc)

abbrev pub channel_of : Service → Name → Option AccountInfo → Name
channel_of v channel none = 0
channel_of v channel (some acc) =
    if acc.status == AccountStatus.on_cross || is_expired (seconds v) acc then 0 else channel

-- A channel that is not there, has moved to another chain or has expired is dropped.
unfoldable pub check_channel : Service → Name → Handler Name
unfolding from_dao get_account_info_by_account_id
check_channel v channel = branch (channel == 0) (reply 0) (do
  acc ← from_dao db_error (get_account_info_by_account_id (v.account_id channel))
  reply (channel_of v channel acc))

-- `checkOrderInfo`, which may change the channel of the request
unfoldable pub check_order_info :
    Service → Name → Name → ReqOrderRegisterBase → Handler ReqOrderRegisterBase
unfolding check_inviter check_channel
check_order_info v coin_type cross_coin_type base = do
  guard (ltb 0 base.register_years && leb base.register_years v.cfg.max_register_years)
      params_invalid
  check_inviter v base.inviter_account
  channel ← check_channel v base.channel_account
  guard (coin_type == 0 || v.is_number coin_type) params_invalid
  guard (cross_coin_type == 0 || cross_coin_type == v.coin_type_eth) params_invalid
  reply (record base { channel_account = channel })

-- The `switch` on a status that is not `SearchStatusRegisterAble`.
abbrev pub base_code : SearchStatus → ApiCode
base_code SearchStatus.un_available_account = un_available_account
base_code SearchStatus.reserved_account = reserved_account
base_code SearchStatus.register_not_open = not_open_for_registration
base_code _ = account_already_register

-- An inviter of the whitelist is the channel too.
abbrev pub whitelisted : Service → ReqOrderRegisterBase → Name
whitelisted v base =
    if contains (v.account_id base.inviter_account) v.cfg.inviter_whitelist
    then base.inviter_account
    else base.channel_account

unfoldable pub content_of :
    (v : Service) → ReqAccountSearch → ReqOrderRegisterBase → Amounts v → Content
content_of v search base a = encoded (record no_content {
  account_char_str = search.account_char_str;
  inviter_account = base.inviter_account;
  channel_account = base.channel_account;
  register_years = base.register_years;
  amount_total_usd = v.stored a.total_usd;
  amount_total_ckb = v.stored a.total_ckb;
})

-- The order of `doRegisterOrder`: it waits for its payment.
unfoldable pub register_draft :
    (v : Service) → ReqOrderRegister → ReqOrderRegisterBase → Amounts v → Draft
unfolding content_of
register_draft v req base a = record {
  account_id = v.account_id req.search.account;
  account = req.search.account;
  action = DasAction.apply_register;
  chain_type = req.search.chain_type;
  address = req.search.address;
  pay_token_id = req.pay_token_id;
  pay_type = req.pay_type;
  content = content_of v req.search base a;
  pay_status = TxStatus.default;
  register_status = RegisterStatus.confirm_payment;
  coin_type = req.coin_type;
  cross_coin_type = req.cross_coin_type;
}

-- `doRegisterOrder`
unfoldable pub do_register_order : Service → ReqOrderRegister → Handler RespOrder
unfolding check_balance place_order register_draft
do_register_order v req = do
  args ← from_option (v.hex_to_args req.search.chain_type req.search.address) error500
  a ←
      from_option
        (get_order_amount v (acc_len req.search.account_char_str) args req.search.account
          req.base.inviter_account req.base.register_years false req.pay_token_id)
        error500
  guard (is_payable v a) error500
  branch (req.pay_token_id == ckb_das)
      (check_balance v req.search.chain_type req.search.address (v.int_part a.total_pay_token))
      (reply tt)
  place_order v
      (register_draft v req (record req.base { channel_account = whitelisted v req.base }) a)
      a.total_pay_token

-- The order of `doRegisterCouponOrder`: it counts as paid.
unfoldable pub coupon_draft : (v : Service) → ReqOrderRegister → Amounts v → Draft
unfolding register_draft
coupon_draft v req a =
    record (register_draft v req (record req.base { inviter_account = 0; channel_account = 0 }) a) {
      pay_token_id = coupon;
      pay_status = TxStatus.sending;
      register_status = RegisterStatus.apply_register;
    }

abbrev pub coupon_resp : Service → Order → RespOrder
coupon_resp v order = record {
  order_id = order.order_id;
  token_id = coupon;
  receipt_address = 0;
  amount = order.pay_amount;
  contract_address = 0;
  client_secret = 0;
}

abbrev pub given_back : Service → Order → Name → Reply Done × Site → Reply RespOrder × Site
given_back v order code (done _, s) =
    (done (coupon_resp v order), delete_coupon_lock_with_redis v code s)
given_back v order code (rejected e, s) = (rejected e, delete_coupon_lock_with_redis v code s)

-- `CreateCouponOrder`, after which the lock is given back whatever came of it.
unfoldable pub store_coupon_order : Service → Order → Name → Handler RespOrder
unfolding from_dao create_coupon_order delete_coupon_lock_with_redis
store_coupon_order v order code s =
    given_back v order code (from_dao error500 (create_coupon_order (seconds v) order code) s)

-- What `doRegisterCouponOrder` does once it holds the lock. `json.Marshal` of an order's content, a struct
-- of strings, numbers and decimals, has no error to return.
unfoldable pub use_coupon : Service → ReqOrderRegister → Name → Name → Handler RespOrder
unfolding store_coupon_order coupon_draft own_order
use_coupon v req args code = do
  a ←
      from_option
        (get_order_amount v (acc_len req.search.account_char_str) args req.search.account 0
          req.base.register_years false coupon)
        error500
  guard (is_free v a) error500
  store_coupon_order v (own_order v (coupon_draft v req a) (v.stored a.total_pay_token)) code

-- `doRegisterCouponOrder`
unfoldable pub do_register_coupon_order : Service → ReqOrderRegister → Handler RespOrder
unfolding check_coupon check_coupon_type get_coupon_lock_with_redis use_coupon
do_register_coupon_order v req = do
  args ← from_option (v.hex_to_args req.search.chain_type req.search.address) error500
  guard (req.base.register_years == 1) params_invalid
  card ← check_coupon v req.gift_card
  guard (check_coupon_type (acc_len req.search.account_char_str) card) coupon_invalid
  get_coupon_lock_with_redis v card.code
  use_coupon v req args card.code

-- The request with its address in hex form, and with no other chain: that way is closed.
abbrev pub at_address : ReqOrderRegister → ChainType → Name → ReqOrderRegister
at_address req chain_type address = record req {
  search = record req.search { chain_type = chain_type; address = address };
  cross_coin_type = 0;
}

-- The checks on the account and on the orders for it.
unfoldable pub check_register_able : Service → ReqAccountSearch → Handler Done
unfolding check_account_char_set check_account_base check_address_order check_other_address_order
check_register_able v search = do
  check_account_char_set v search.account search.account_char_str
  account_base ← check_account_base v search
  guard (account_base.status == SearchStatus.register_able) (base_code account_base.status)
  own ← check_address_order v search false
  guard (own.0 == SearchStatus.register_able) account_already_register
  latest ← check_other_address_order v search
  guard (latest <? SearchStatus.registering) account_already_register

-- The address of the request, the guards on the service, and the limit on orders not paid.
unfoldable pub check_request : Service → ReqOrderRegister → Handler ReqOrderRegister
unfolding check_system_upgrade check_latest from_dao get_un_pay_order_count
check_request v req = do
  guard (not (req.search.account == 0)) params_invalid
  guard (not (is_token_id_ckb_internal req.pay_token_id)) params_invalid
  (chain_type, address) ←
      from_option (v.format_chain_type_address req.search.key_info) params_invalid
  guard (check_chain_type v chain_type) params_invalid
  check_system_upgrade v
  check_latest v
  un_pay_count ← from_dao db_error (get_un_pay_order_count chain_type address)
  guard (leb un_pay_count 300) operation_frequent
  reply (at_address req chain_type address)

-- The end of `doOrderRegister`: paid in a token, or by a gift card.
unfoldable pub create_either : Service → ReqOrderRegister → Handler RespOrder
unfolding do_register_order do_register_coupon_order
create_either v req =
    branch (req.gift_card == 0) (do_register_order v req) (do_register_coupon_order v req)

-- `doOrderRegister`
unfoldable pub do_order_register : Service → ReqOrderRegister → Handler RespOrder
unfolding check_request check_order_info check_register_able create_either
do_order_register v req = do
  asked ← check_request v req
  base ← check_order_info v asked.coin_type asked.cross_coin_type asked.base
  check_register_able v asked.search
  create_either v (record asked { base = base })
