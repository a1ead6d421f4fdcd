-- ===== src/Handle/Account.antt =====
-- http_server/handle/account_search.go: `doAccountSearch`, which answers for an account whether it
-- can be registered, what it costs, and how far an order for it is.
use das_register.Prelude.{
  ℕ, Bool, true, false, Option, none, some, [], ◌∷◌, not, ◌&&◌, ◌||◌, nat_coded, ◌==◌,
  if◌then◌else◌,
}
use das_register.Tables.Names.{Name}
use das_register.Tables.Order.{
  SearchStatus, RegisterStatus, search_status_coded, register_status_coded,
}
use das_register.Handle.Reply.{
  Handler, reply, ◌>>=◌, branch, ◌>>◌, from_option, params_invalid, error500,
}
use das_register.Handle.Service.{Service}
use das_register.Handle.Text.{acc_len, check_account_char_set}
use das_register.Handle.Search.{
  ReqAccountSearch, AccountBase, TxMap, check_account_base, check_address_order,
  check_other_address_order, check_sub_account, is_sub_account,
}
use das_register.Handle.Amounts.{Prices, get_account_price}

module _ (v : Service) where
  -- `RespAccountSearch`; the prices are there only where they were asked for.
  pub record RespAccountSearch : Type 0 where
    pub status : SearchStatus
    pub account : Name
    pub prices : Option (Prices v)
    pub is_self : Bool
    pub register_tx_map : TxMap
    pub open_timestamp : ℕ

  abbrev sub_account_resp : Name → SearchStatus × Bool → RespAccountSearch
  sub_account_resp account (status, is_self) = record {
    status = status;
    account = account;
    prices = none;
    is_self = is_self;
    register_tx_map = [];
    open_timestamp = 0;
  }

  abbrev pub resp_from : Name → AccountBase → Option (Prices v) → RespAccountSearch
  resp_from account account_base prices = record {
    status = account_base.status;
    account = account;
    prices = prices;
    is_self = account_base.is_self;
    register_tx_map = [];
    open_timestamp = account_base.open_ts;
  }

  -- Only a status that is still `SearchStatusRegisterAble` is replaced.
  abbrev pub joined_status : SearchStatus → SearchStatus → SearchStatus
  joined_status old new = if old == SearchStatus.register_able then new else old

  abbrev has_entry : RegisterStatus → TxMap → Bool
  has_entry status [] = false
  has_entry status ((key, tx) ∷ m) = key == status || has_entry status m

  abbrev with_proposal : Name → TxMap → TxMap
  with_proposal hash m =
      if not (has_entry RegisterStatus.confirm_proposal m) && not (hash == 0)
      then (
        RegisterStatus.confirm_proposal,
        record { chain_id = v.ckb_chain; token_id = none; hash = hash },
      )
        ∷ m
      else m

  abbrev has_no_address : ReqAccountSearch → Bool
  has_no_address req = req.address == 0 && req.key_info == 0

  -- The address of the asker in hex form, if there is one.
  unfoldable pub with_address : ReqAccountSearch → Handler ReqAccountSearch
  with_address req = branch (has_no_address req) (reply req) (do
    (chain_type, address) ← from_option (v.format_chain_type_address req.key_info) params_invalid
    reply (record req { chain_type = chain_type; address = address }))

  unfoldable pub search_args : ReqAccountSearch → Handler Name
  search_args req =
      branch (has_no_address req) (reply 0)
        (from_option (v.hex_to_args req.chain_type req.address) error500)

  -- The order of the asker, and then that of anybody.
  unfoldable pub search_orders :
      ReqAccountSearch → AccountBase → RespAccountSearch → Handler RespAccountSearch
  unfolding check_address_order check_other_address_order
  search_orders req account_base resp = do
    (status, tx_map) ← check_address_order v req true
    branch (status == SearchStatus.register_able)
        (do
          latest ← check_other_address_order v req
          reply (record resp { status = joined_status resp.status latest }))
        (reply (record resp {
          status = joined_status resp.status status;
          is_self = true;
          register_tx_map = with_proposal account_base.confirm_proposal_hash tx_map;
        }))

  unfoldable pub search_prices : ReqAccountSearch → AccountBase → Handler RespAccountSearch
  unfolding search_args search_orders
  search_prices req account_base = do
    args ← search_args req
    prices ←
        from_option (get_account_price v (acc_len req.account_char_str) args req.account false)
          error500
    search_orders req account_base (resp_from req.account account_base (some prices))

  unfoldable pub search_account : ReqAccountSearch → Handler RespAccountSearch
  unfolding check_account_char_set check_account_base search_prices
  search_account req = do
    check_account_char_set v req.account req.account_char_str
    account_base ← check_account_base v req
    branch (not (account_base.status == SearchStatus.register_able) && not account_base.is_self)
        (reply (resp_from req.account account_base none)) (search_prices req account_base)

  unfoldable pub search_sub_account : ReqAccountSearch → Handler RespAccountSearch
  unfolding check_sub_account
  search_sub_account req = do
    found ← check_sub_account v req
    reply (sub_account_resp req.account found)

  -- `doAccountSearch`
  unfoldable pub do_account_search : ReqAccountSearch → Handler RespAccountSearch
  unfolding with_address search_account search_sub_account is_sub_account
  do_account_search req = do
    asked ← with_address (record req { account = v.to_lower req.account })
    branch (is_sub_account v asked.account) (search_sub_account asked) (search_account asked)
