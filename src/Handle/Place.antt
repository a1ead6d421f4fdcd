-- ===== src/Handle/Place.antt =====
-- The part that `doRegisterOrder`, `doNewOrder` and `doRenewOrder` share: an order for an amount is
-- created, at unipay if that is configured, and stored with its payment. And the tests that the
-- handlers make first: `checkSystemUpgrade`, `IsLatestBlockNumber` and the balance.
use das_register.Prelude.{
  Bool, ◌||◌, ℕ, suc, ◌+◌, ◌%◌, ◌^◌, Option, none, some, not, ◌&&◌, nat_coded, ◌==◌, ◌∷◌,
  if◌then◌else◌,
}
use das_register.Tables.Names.{
  Name, ChainType, DasAction, PayTokenId, pay_token_coded, stripe_usd, ckb_das, ckb_ckb, ckb_ccc,
  eth_eth, eth_erc20_usdt, bsc_bnb, bsc_bep20_usdt, polygon_pol, tron_trx, tron_trc20_usdt,
  doge_doge, did_point,
}
use das_register.Tables.Order.{
  Order, Content, TxStatus, OrderStatus, RegisterStatus, self, uni_pay_true, uni_pay_false,
  did_cell_no,
}
use das_register.Tables.Pay.{PayInfo, OrderTxStatus, UniPayRefundStatus}
use das_register.Dao.Store.{Done}
use das_register.Dao.Orders.{create_order_with_payment}
use das_register.Internal.{is_latest_block_number}
use das_register.Handle.Reply.{
  ApiCode, Handler, done, rejected, reply, reject, ◌>>=◌, branch, ◌>>◌, from_dao, guard,
  from_option, error500, system_upgrade, sync_block_number, not_enough_change, insufficient_balance,
  rejected_out_point,
}
use das_register.Handle.Service.{Service, Network, BalanceError, UnipayOrder}
use das_register.Handle.Amounts.{Payable, add_premium}

-- `checkSystemUpgrade`
unfoldable pub check_system_upgrade : Service → Handler Done
check_system_upgrade v = do
  guard (not v.cfg.is_update) system_upgrade
  status ← from_option v.main_status error500
  guard (status == 1) system_upgrade
  is_ok ← from_option v.contract_status_ok error500
  guard is_ok system_upgrade

-- The guard that calls `internal.IsLatestBlockNumber`
-- `checkChainType`
abbrev pub check_chain_type : Service → ChainType → Bool
check_chain_type v chain_type =
    chain_type == v.tron_chain
    || chain_type == v.mixin_chain
    || chain_type == v.eth_chain
    || chain_type == v.doge_chain
    || chain_type == v.webauthn_chain

unfoldable pub check_latest : Service → Handler Done
unfolding is_latest_block_number
check_latest v = guard (is_latest_block_number v.cfg.parser_url v.is_latest).0 sync_block_number

-- `checkBalanceErr`
abbrev pub check_balance_err : BalanceError → ApiCode
check_balance_err BalanceError.rejected_out_point = rejected_out_point
check_balance_err BalanceError.not_enough_change = not_enough_change
check_balance_err BalanceError.insufficient_funds = insufficient_balance
check_balance_err BalanceError.unnamed = error500

abbrev pub enough : Option BalanceError → Handler Done
enough none = reply tt
enough (some e) = reject (check_balance_err e)

-- The cells of the payer must hold the amount and a fee of one CKB, in a `uint64`.
unfoldable pub check_balance : Service → ChainType → Name → ℕ → Handler Done
check_balance v chain_type address amount = do
  das_lock ← from_option (v.hex_to_script chain_type address) error500
  enough (v.get_balance_cells das_lock ((amount % 2 ^ 64 + v.one_ckb) % 2 ^ 64))

-- `config.GetUnipayAddress`
unfoldable pub get_unipay_address : Service → PayTokenId → Name
get_unipay_address v eth_eth = v.cfg.pay_address_map Network.eth
get_unipay_address v eth_erc20_usdt = v.cfg.pay_address_map Network.eth
get_unipay_address v bsc_bnb = v.cfg.pay_address_map Network.bsc
get_unipay_address v bsc_bep20_usdt = v.cfg.pay_address_map Network.bsc
get_unipay_address v polygon_pol = v.cfg.pay_address_map Network.polygon
get_unipay_address v tron_trx = v.cfg.pay_address_map Network.tron
get_unipay_address v tron_trc20_usdt = v.cfg.pay_address_map Network.tron
get_unipay_address v ckb_ckb = v.cfg.pay_address_map Network.ckb
get_unipay_address v ckb_das = v.cfg.pay_address_map Network.ckb
get_unipay_address v ckb_ccc = v.cfg.pay_address_map Network.ckb
get_unipay_address v doge_doge = v.cfg.pay_address_map Network.doge
get_unipay_address v stripe_usd = suc v.stripe_text
get_unipay_address v did_point = v.cfg.pay_address_map Network.did_point
get_unipay_address v _ = 0

-- What the three handlers put into an order, each in its own way.
pub record Draft : Type 0 where
  pub account_id : Name
  pub account : Name
  pub action : DasAction
  pub chain_type : ChainType
  pub address : Name
  pub pay_token_id : PayTokenId
  pub pay_type : Name
  pub content : Content
  pub pay_status : TxStatus
  pub register_status : RegisterStatus
  pub coin_type : Name
  pub cross_coin_type : Name

-- An order that unipay does not know: `CreateOrderId` makes its id.
unfoldable pub own_order : Service → Draft → ℕ → Order
own_order v d amount = record {
  id = 0;
  order_type = self;
  order_id = v.create_order_id self d.account_id d.action d.chain_type d.address v.now;
  account_id = d.account_id;
  account = d.account;
  action = d.action;
  chain_type = d.chain_type;
  address = d.address;
  timestamp = v.now;
  pay_token_id = d.pay_token_id;
  pay_type = d.pay_type;
  pay_amount = amount;
  content = d.content;
  pay_status = d.pay_status;
  hedge_status = TxStatus.default;
  pre_register_status = TxStatus.default;
  register_status = d.register_status;
  order_status = OrderStatus.default;
  coin_type = d.coin_type;
  cross_coin_type = d.cross_coin_type;
  is_uni_pay = uni_pay_false;
  premium_percentage = 0;
  premium_base = 0;
  premium_amount = 0;
  is_did_cell = did_cell_no;
}

unfoldable pub unipay_order : (v : Service) → Draft → Payable v → UnipayOrder → Order
unfolding own_order
unipay_order v d p res = record (own_order v d (v.stored p.amount)) {
  order_id = res.order_id;
  is_uni_pay = uni_pay_true;
  premium_percentage = v.stored p.premium_percentage;
  premium_base = v.stored p.premium_base;
  premium_amount = v.stored p.premium_amount;
}

-- The zero value, which is not stored.
abbrev pub no_payment : PayInfo
no_payment = record {
  id = 0;
  hash = 0;
  order_id = 0;
  chain_type = 0;
  address = 0;
  status = OrderTxStatus.default;
  timestamp = 0;
  account_id = 0;
  refund_status = TxStatus.default;
  uni_pay_refund_status = UniPayRefundStatus.default;
  refund_hash = 0;
}

-- A payment by card is stored with the order, under the id of its intent.
unfoldable pub payment_of : Service → Draft → UnipayOrder → PayInfo
payment_of v d res =
    if d.pay_token_id == stripe_usd && not (res.stripe_payment_intent_id == 0)
    then record no_payment {
      hash = res.stripe_payment_intent_id;
      order_id = res.order_id;
      chain_type = d.chain_type;
      address = d.address;
      timestamp = v.now;
      account_id = d.account_id;
    }
    else no_payment

-- `RespOrderRegister`, `RespOrderChange` and `RespOrderRenew`
pub record RespOrder : Type 0 where
  pub order_id : Name
  pub token_id : PayTokenId
  pub receipt_address : Name
  pub amount : ℕ
  pub contract_address : Name
  pub client_secret : Name

abbrev pub resp_of : Service → Order → Name → Name → RespOrder
resp_of v order contract_address client_secret = record {
  order_id = order.order_id;
  token_id = order.pay_token_id;
  receipt_address = get_unipay_address v order.pay_token_id;
  amount = order.pay_amount;
  contract_address = contract_address;
  client_secret = client_secret;
}

-- The end of the three handlers.
unfoldable pub store_order : Service → Order → PayInfo → Name → Name → Handler RespOrder
unfolding from_dao create_order_with_payment get_unipay_address
store_order v order payment contract_address client_secret = do
  guard (not (get_unipay_address v order.pay_token_id == 0)) error500
  from_dao error500 (create_order_with_payment order payment)
  reply (resp_of v order contract_address client_secret)

abbrev pub placed_at : Option UnipayOrder → Handler UnipayOrder
placed_at none s = (rejected error500, s)
placed_at (some res) s = (done res, record s { placed = res.order_id ∷ s.placed })

-- `unipay.CreateOrder`
unfoldable pub create_at_unipay : Service → PayTokenId → ℕ → Handler UnipayOrder
create_at_unipay v token_id amount = placed_at (v.create_unipay_order token_id amount)

unfoldable pub place_at_unipay : (v : Service) → Draft → Payable v → Handler RespOrder
unfolding create_at_unipay store_order unipay_order payment_of
place_at_unipay v d p = do
  _ ← from_option (v.hex_to_normal d.chain_type d.address) error500
  res ← create_at_unipay v d.pay_token_id (v.stored p.amount)
  store_order v (unipay_order v d p res) (payment_of v d res) res.contract_address res.client_secret

unfoldable pub place_order : (v : Service) → Draft → v.Num → Handler RespOrder
unfolding place_at_unipay store_order own_order
place_order v d amount =
    branch (v.cfg.uni_pay_url == 0) (store_order v (own_order v d (v.stored amount)) no_payment 0 0)
      (place_at_unipay v d (add_premium v d.pay_token_id amount))
