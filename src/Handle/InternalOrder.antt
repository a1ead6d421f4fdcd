-- ===== src/Handle/InternalOrder.antt =====
-- http_server/handle/account_register.go and account_renew.go: the orders of other services of the
-- group, which count as paid from the start.
use das_register.Prelude.{ℕ, ◌%◌, Bool, true, false, List, [], ◌∷◌, not, ◌&&◌, leb, nat_coded, ◌==◌}
use das_register.Tables.Names.{
  Name, ChainType, DasAction, PayTokenId, ckb_internal, padge_internal, AccountCharSet,
}
use das_register.Tables.Order.{Order, no_content, encoded, TxStatus, RegisterStatus}
use das_register.Tables.Rest.{AccountInfo, AccountStatus, account_status_coded}
use das_register.Dao.Orders.{create_order}
use das_register.Dao.Queries.{get_account_info_by_account_id}
use das_register.Handle.Reply.{
  Handler, reply, ◌>>=◌, ◌>>◌, branch, from_dao, guard, from_option, params_invalid, db_error,
  error500, on_cross, account_not_exist,
}
use das_register.Handle.Service.{Service}
use das_register.Handle.Text.{acc_len, has_bit_suffix}
use das_register.Handle.Search.{ReqAccountSearch}
use das_register.Handle.Amounts.{Amounts, get_order_amount, is_payable}
use das_register.Handle.Place.{
  check_system_upgrade, check_latest, check_chain_type, Draft, own_order,
}
use das_register.Handle.Register.{
  ReqOrderRegisterBase, check_order_info, check_register_able, content_of,
}

-- `MintFrom`, a string: all but "padge" are treated alike.
pub data MintFrom : Type 0 where
  mint_from_default mint_from_padge : MintFrom
  other_mint : ℕ → MintFrom

pub record ReqAccountRegister : Type 0 where
  pub search : ReqAccountSearch
  pub base : ReqOrderRegisterBase
  pub coin_type : Name
  pub mint_from : MintFrom

abbrev has_no_chars : List AccountCharSet → Bool
has_no_chars [] = true
has_no_chars (c ∷ rest) = false

-- The characters of the request, or those of das-lib for its account.
unfoldable pub with_chars : Service → ReqAccountSearch → Handler ReqAccountSearch
with_chars v search =
    branch (has_no_chars search.account_char_str)
      (from_option (v.account_char_set_list search.account) params_invalid >>= λ chars.
        reply (record search { account_char_str = chars }))
      (reply search)

abbrev pay_token_of_mint : MintFrom → PayTokenId
pay_token_of_mint MintFrom.mint_from_padge = padge_internal
pay_token_of_mint MintFrom.mint_from_default = ckb_internal
pay_token_of_mint (MintFrom.other_mint n) = ckb_internal

-- What the orders of the two handlers have in common: they wait to be sent, not to be paid.
abbrev internal_draft : Service → Name → DasAction → ChainType → Name → PayTokenId → Draft
internal_draft v account action chain_type address pay_token_id = record {
  account_id = v.account_id account;
  account = account;
  action = action;
  chain_type = chain_type;
  address = address;
  pay_token_id = pay_token_id;
  pay_type = 0;
  content = encoded no_content;
  pay_status = TxStatus.sending;
  register_status = RegisterStatus.confirm_payment;
  coin_type = 0;
  cross_coin_type = 0;
}

unfoldable pub internal_register_draft :
    (v : Service) → ReqAccountRegister → ReqOrderRegisterBase → Amounts v → Draft
unfolding content_of
internal_register_draft v req base a =
    record (internal_draft v req.search.account DasAction.apply_register req.search.chain_type
      req.search.address (pay_token_of_mint req.mint_from)) {
        content = content_of v req.search base a;
        coin_type = req.coin_type;
      }

unfoldable pub internal_renew_draft :
    (v : Service) → ChainType → Name → Name → ℕ → Amounts v → Draft
internal_renew_draft v chain_type address account renew_years a =
    record (internal_draft v account DasAction.renew_account chain_type address ckb_internal) {
      content = encoded (record no_content {
        amount_total_usd = v.stored a.total_usd;
        amount_total_ckb = v.stored a.total_ckb;
        renew_years = renew_years;
      });
    }

-- The end of both: the answer is the id of the order.
unfoldable pub store_internal_order : Order → Handler Name
unfolding from_dao create_order
store_internal_order order = do from_dao error500 (create_order order); reply order.order_id

-- `doInternalRegisterOrder`
unfoldable pub do_internal_register_order :
    Service → ReqAccountRegister → ReqOrderRegisterBase → Handler Name
unfolding store_internal_order own_order internal_register_draft
do_internal_register_order v req base = do
  args ← from_option (v.hex_to_args req.search.chain_type req.search.address) error500
  a ←
      from_option
        (get_order_amount v (acc_len req.search.account_char_str) args req.search.account
          base.inviter_account base.register_years false (pay_token_of_mint req.mint_from))
        error500
  guard (is_payable v a) error500
  store_internal_order
      (own_order v (internal_register_draft v req base a) (v.stored a.total_pay_token))

abbrev pub found_at : ReqAccountRegister → ReqAccountSearch → ChainType → Name → ReqAccountRegister
found_at req search chain_type address = record req {
  search = record search { chain_type = chain_type; address = address };
}

-- `doAccountRegister`
unfoldable pub do_account_register : Service → ReqAccountRegister → Handler Name
unfolding with_chars check_system_upgrade check_latest check_order_info check_register_able
    do_internal_register_order
do_account_register v req = do
  guard (not (req.search.account == 0)) params_invalid
  search ← with_chars v req.search
  (chain_type, address) ←
      from_option (v.format_chain_type_address req.search.key_info) params_invalid
  guard (check_chain_type v chain_type) params_invalid
  check_system_upgrade v
  check_latest v
  base ← check_order_info v 0 0 req.base
  check_register_able v (found_at req search chain_type address).search
  do_internal_register_order v (found_at req search chain_type address) base

-- `ReqAccountRenew`; a negative number of years stands as 0 here, which is refused as well.
pub record ReqAccountRenew : Type 0 where
  pub key_info : Name
  pub account : Name
  pub renew_years : ℕ

-- The checks of `doAccountRenew` on the account, which do not ask for its grace period.
unfoldable pub check_internal_renew : Service → Name → ℕ → Handler AccountInfo
unfolding from_dao get_account_info_by_account_id
check_internal_renew v account renew_years = do
  guard (leb 1 renew_years && leb renew_years v.cfg.max_register_years) params_invalid
  found ← from_dao db_error (get_account_info_by_account_id (v.account_id account))
  acc ← from_option found account_not_exist
  guard (acc.parent_account_id == 0) params_invalid
  guard (not (acc.status == AccountStatus.on_cross)) on_cross
  reply acc

-- `doInternalRenewOrder`
unfoldable pub do_internal_renew_order :
    Service → ChainType → Name → Name → ℕ → AccountInfo → Handler Name
unfolding store_internal_order own_order internal_renew_draft
do_internal_renew_order v chain_type address account renew_years acc = do
  count ← from_option (v.account_chars acc.account_id) error500
  a ←
      from_option (get_order_amount v (count % 256) 0 account 0 renew_years true ckb_internal)
        error500
  guard (is_payable v a) error500
  store_internal_order (
      own_order v (internal_renew_draft v chain_type address account renew_years a)
        (v.stored a.total_pay_token))

-- `doAccountRenew`
unfoldable pub do_account_renew : Service → ReqAccountRenew → Handler Name
unfolding check_system_upgrade check_latest check_internal_renew do_internal_renew_order
do_account_renew v req = do
  guard (not (v.to_lower req.account == 0) && has_bit_suffix (v.text (v.to_lower req.account)))
      params_invalid
  (chain_type, address) ← from_option (v.format_chain_type_address req.key_info) params_invalid
  check_system_upgrade v
  check_latest v
  acc ← check_internal_renew v (v.to_lower req.account) req.renew_years
  do_internal_renew_order v chain_type address (v.to_lower req.account) req.renew_years acc
