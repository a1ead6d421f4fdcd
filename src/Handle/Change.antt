-- ===== src/Handle/Change.antt =====
-- http_server/handle/order_change.go, order_renew.go and order_pay_hash.go: a new order in the place
-- of one that is not paid, an order to renew an account, and the hash of a payment.
use das_register.Prelude.{
  ℕ, ◌+◌, ◌%◌, ◌^◌, Bool, true, false, Option, none, some, List, not, ◌&&◌, ◌||◌, leb, nat_coded,
  ◌==◌,
}
use das_register.Tables.Names.{
  Name, ChainType, DasAction, PayTokenId, pay_token_coded, ckb_das, AccountCharSet,
}
use das_register.Tables.Order.{
  Order, OrderContent, no_content, encoded, TxStatus, RegisterStatus, OrderStatus,
  register_status_coded, order_status_coded, is_token_id_ckb_internal, Content, empty, malformed,
}
use das_register.Tables.Pay.{PayInfo}
use das_register.Tables.Rest.{AccountInfo, AccountStatus, account_status_coded}
use das_register.Dao.Store.{Done}
use das_register.Dao.Payments.{create_order_pay_info}
use das_register.Dao.Queries.{
  get_account_info_by_account_id, get_latest_register_order_by_self, get_order_by_order_id,
}
use das_register.Handle.Reply.{
  Handler, reply, ◌>>=◌, branch, ◌>>◌, from_dao, guard, from_option, params_invalid, db_error,
  error500, on_cross, order_not_exist, order_paid, account_not_exist, after_grace_period,
}
use das_register.Handle.Service.{Service, seconds}
use das_register.Handle.Text.{acc_len, has_bit_suffix}
use das_register.Handle.Amounts.{Amounts, get_order_amount, is_payable}
use das_register.Handle.Place.{
  check_system_upgrade, check_latest, check_balance, Draft, no_payment, RespOrder, place_order,
}
use das_register.Handle.Register.{
  ReqOrderRegisterBase, ReqOrderRegister, check_order_info, register_draft, whitelisted,
}

-- `ReqOrderChange` has the fields of `ReqOrderRegister` but for the characters and the gift card, which
-- are not read here.
pub record ReqOrderChange : Type 0 where
  pub key_info : Name
  pub account : Name
  pub base : ReqOrderRegisterBase
  pub pay_token_id : PayTokenId
  pub pay_type : Name
  pub coin_type : Name
  pub cross_coin_type : Name

-- `json.Unmarshal` of a content, which refuses the empty string, unlike `GetContent`.
abbrev pub unmarshal_content : Content → Option OrderContent
unmarshal_content empty = none
unmarshal_content (encoded c) = some c
unmarshal_content malformed = none

-- `oldOrderCheck`: the content of the order that is to be changed.
unfoldable pub old_order_check : Service → ChainType → Name → Name → Handler OrderContent
unfolding from_dao get_latest_register_order_by_self
old_order_check v chain_type address account = do
  found ←
      from_dao db_error
        (get_latest_register_order_by_self chain_type address (v.account_id account))
  order ← from_option found order_not_exist
  guard (order.register_status == RegisterStatus.confirm_payment) order_paid
  guard (order.order_status == OrderStatus.default) order_not_exist
  from_option (unmarshal_content order.content) error500

-- The request as one to register, with the characters of the old order.
abbrev pub as_register :
    ReqOrderChange → ChainType → Name → Name → List AccountCharSet → ReqOrderRegister
as_register req chain_type address account chars = record {
  search = record {
    key_info = req.key_info;
    chain_type = chain_type;
    address = address;
    account = account;
    account_char_str = chars;
  };
  base = req.base;
  pay_token_id = req.pay_token_id;
  pay_type = req.pay_type;
  coin_type = req.coin_type;
  cross_coin_type = req.cross_coin_type;
  gift_card = 0;
}

-- `doNewOrder`
unfoldable pub do_new_order :
    Service → ReqOrderRegister → ReqOrderRegisterBase → OrderContent → Handler RespOrder
unfolding place_order register_draft
do_new_order v req base old = do
  args ← from_option (v.hex_to_args req.search.chain_type req.search.address) error500
  a ←
      from_option
        (get_order_amount v (acc_len old.account_char_str) args req.search.account
          base.inviter_account base.register_years false req.pay_token_id)
        error500
  guard (is_payable v a) error500
  place_order v (register_draft v req (record base { channel_account = whitelisted v base }) a)
      a.total_pay_token

-- `doOrderChange`
unfoldable pub do_order_change : Service → ReqOrderChange → Handler RespOrder
unfolding check_system_upgrade check_latest check_order_info old_order_check do_new_order
do_order_change v req = do
  guard (not (req.account == 0)) params_invalid
  guard (not (is_token_id_ckb_internal req.pay_token_id)) params_invalid
  (chain_type, address) ← from_option (v.format_chain_type_address req.key_info) params_invalid
  check_system_upgrade v
  check_latest v
  base ← check_order_info v req.coin_type req.cross_coin_type req.base
  old ← old_order_check v chain_type address (v.to_lower req.account)
  do_new_order v (as_register req chain_type address (v.to_lower req.account) old.account_char_str)
      base old

-- `ReqOrderRenew`; a negative number of years stands as 0 here, which is refused as well.
pub record ReqOrderRenew : Type 0 where
  pub key_info : Name
  pub account : Name
  pub pay_token_id : PayTokenId
  pub pay_type : Name
  pub renew_years : ℕ

-- `int64(acc.ExpiredAt+uint64(expirationGracePeriod)) <= now`: the sum is one of 64 bits, and from 2 ^ 63
-- on it is negative as an `int64`.
unfoldable pub is_after_grace : ℕ → AccountInfo → ℕ → Bool
is_after_grace grace acc now =
    let end_ = (acc.expired_at + grace) % 2 ^ 64 in leb (2 ^ 63) end_ || leb end_ now

-- `checkRenewOrder`
unfoldable pub check_renew_order : Service → Name → ℕ → Handler AccountInfo
unfolding from_dao get_account_info_by_account_id is_after_grace
check_renew_order v account renew_years = do
  guard (leb 1 renew_years && leb renew_years v.cfg.max_register_years) params_invalid
  found ← from_dao db_error (get_account_info_by_account_id (v.account_id account))
  acc ← from_option found account_not_exist
  guard (acc.parent_account_id == 0) params_invalid
  guard (not (acc.status == AccountStatus.on_cross)) on_cross
  grace ← from_option v.expiration_grace_period error500
  guard (not (is_after_grace grace acc (seconds v))) after_grace_period
  reply acc

-- The order of `doRenewOrder`, whose register status stays at its default.
unfoldable pub renew_draft :
    (v : Service) → ReqOrderRenew → ChainType → Name → Name → Amounts v → Draft
renew_draft v req chain_type address account a = record {
  account_id = v.account_id account;
  account = account;
  action = DasAction.renew_account;
  chain_type = chain_type;
  address = address;
  pay_token_id = req.pay_token_id;
  pay_type = req.pay_type;
  content = encoded (record no_content {
    amount_total_usd = v.stored a.total_usd;
    amount_total_ckb = v.stored a.total_ckb;
    renew_years = req.renew_years;
  });
  pay_status = TxStatus.default;
  register_status = RegisterStatus.default;
  coin_type = 0;
  cross_coin_type = 0;
}

-- The error of `HexToArgs` is not looked at here: the args are then empty.
abbrev args_or_empty : Option Name → Name
args_or_empty none = 0
args_or_empty (some args) = args

-- `doRenewOrder`; the number of characters is that of the account's cell on the chain, in a byte.
unfoldable pub do_renew_order :
    Service → ReqOrderRenew → ChainType → Name → Name → AccountInfo → Handler RespOrder
unfolding check_balance place_order renew_draft
do_renew_order v req chain_type address account acc = do
  count ← from_option (v.account_chars acc.account_id) error500
  a ←
      from_option
        (get_order_amount v (count % 256) (args_or_empty (v.hex_to_args chain_type address)) account
          0 req.renew_years true req.pay_token_id)
        error500
  guard (is_payable v a) error500
  branch (req.pay_token_id == ckb_das)
      (check_balance v chain_type address (v.int_part a.total_pay_token)) (reply tt)
  place_order v (renew_draft v req chain_type address account a) a.total_pay_token

-- `doOrderRenew`
unfoldable pub do_order_renew : Service → ReqOrderRenew → Handler RespOrder
unfolding check_system_upgrade check_latest check_renew_order do_renew_order
do_order_renew v req = do
  guard (not (req.account == 0) && has_bit_suffix (v.text req.account)) params_invalid
  guard (not (is_token_id_ckb_internal req.pay_token_id)) params_invalid
  (chain_type, address) ← from_option (v.format_chain_type_address req.key_info) params_invalid
  check_system_upgrade v
  check_latest v
  acc ← check_renew_order v (v.to_lower req.account) req.renew_years
  do_renew_order v req chain_type address (v.to_lower req.account) acc

-- `ReqOrderPayHash`
pub record ReqOrderPayHash : Type 0 where
  pub key_info : Name
  pub account : Name
  pub order_id : Name
  pub pay_hash : Name

unfoldable pub pay_info_of : Service → ReqOrderPayHash → ChainType → Name → Order → PayInfo
pay_info_of v req chain_type address order = record no_payment {
  hash = req.pay_hash;
  order_id = req.order_id;
  chain_type = chain_type;
  address = address;
  account_id = order.account_id;
  timestamp = v.now;
}

-- `doOrderPayHash`
unfoldable pub do_order_pay_hash : Service → ReqOrderPayHash → Handler Done
unfolding from_dao get_order_by_order_id create_order_pay_info pay_info_of
do_order_pay_hash v req = do
  guard (not (req.account == 0 || req.order_id == 0 || req.pay_hash == 0)) params_invalid
  (chain_type, address) ← from_option (v.format_chain_type_address req.key_info) params_invalid
  found ← from_dao db_error (get_order_by_order_id req.order_id)
  order ← from_option found order_not_exist
  guard (v.equal_fold order.account (v.to_lower req.account)) params_invalid
  guard (chain_type == order.chain_type && v.equal_fold address order.address) params_invalid
  from_dao db_error (create_order_pay_info (pay_info_of v req chain_type address order))
