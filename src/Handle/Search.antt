-- ===== src/Handle/Search.antt =====
-- http_server/handle/account_search.go: whether an account can be registered, by the table of accounts,
-- the lists of names, the rules of the release, and the orders of the asker and of others.
use das_register.Prelude.{
  ℕ, ◌-◌, ◌*◌, Bool, true, false, Option, none, some, List, [], ◌∷◌, not, ◌&&◌, ◌||◌, leb, ltb,
  nat_coded, ◌==◌, if◌then◌else◌,
}
use das_register.Tables.Names.{
  Name, ChainType, PayTokenId, AccountCharSet, pay_token_coded, stripe_usd, ckb_das, ckb_ckb,
  ckb_internal, eth_eth, bsc_bnb, polygon_pol, tron_trx,
}
use das_register.Tables.Order.{
  Order, SearchStatus, RegisterStatus, OrderStatus, self, search_status_coded,
  register_status_coded, order_status_coded, order_type_coded,
  format_register_status_to_search_status,
}
use das_register.Tables.Pay.{
  PayInfo, OrderTx, OrderTxStatus, OrderTxAction, order_tx_status_coded, apply_register,
  pre_register, propose, confirm_proposal,
}
use das_register.Tables.Rest.{AccountInfo, format_account_status}
use das_register.Dao.Queries.{
  get_latest_register_order_by_address, get_latest_register_order_by_latest,
  get_account_info_by_account_id, get_pay_info_by_order_id, get_order_tx_list_by_order_id,
}
use das_register.Handle.Reply.{
  Handler, reply, reject, ◌>>=◌, branch, from_dao, from_option, db_error, error500,
  account_len_invalid,
}
use das_register.Handle.Service.{Service}
use das_register.Handle.Text.{acc_len, is_same_dao_char_type, count_dots}

-- `ReqAccountSearch`, with the address already in its hex form
pub record ReqAccountSearch : Type 0 where
  pub key_info : Name
  pub chain_type : ChainType
  pub address : Name
  pub account : Name
  pub account_char_str : List AccountCharSet

-- The named results of `checkAccountBase`
pub record AccountBase : Type 0 where
  pub confirm_proposal_hash : Name
  pub status : SearchStatus
  pub is_self : Bool
  pub open_ts : ℕ

-- The results that no statement has set: a `SearchStatus` of 0 is `SearchStatusRegisterAble`.
abbrev pub unset : AccountBase
unset = record {
  confirm_proposal_hash = 0;
  status = SearchStatus.register_able;
  is_self = false;
  open_ts = 0;
}

abbrev is_owner : Service → ReqAccountSearch → AccountInfo → Bool
is_owner v req acc = req.chain_type == acc.owner_chain_type && v.equal_fold req.address acc.owner

-- `openTimestamp`
abbrev open_timestamp : Service → ℕ
open_timestamp v = if v.cfg.is_main_net then 1666094400 else 1665712800

abbrev either_of : {A : Type 0} → Option A → Option A → Option A
either_of none other = other
either_of (some a) other = some a

-- The lucky number, of the config cell or of its cache, against the account's hash.
unfoldable pub check_lucky_number : Service → ReqAccountSearch → Handler AccountBase
check_lucky_number v req = do
  lucky ← from_option (either_of v.lucky_number v.cached_lucky_number) error500
  reply (
      if ltb lucky (v.first_four_bytes req.account)
      then record unset {
        status = SearchStatus.register_not_open;
        open_ts = if is_same_dao_char_type v req.account_char_str then open_timestamp v else 0;
      }
      else unset)

-- The lengths that are open under rules: at a time, or by the lucky number.
unfoldable pub check_open : Service → ReqAccountSearch → Handler AccountBase
unfolding check_lucky_number
check_open v req = do
  tc ← from_option v.time_cell error500
  branch (leb (open_timestamp v) tc && is_same_dao_char_type v req.account_char_str) (reply unset)
      (check_lucky_number v req)

-- The account is not in the table.
unfoldable pub check_new_account : Service → ReqAccountSearch → Handler AccountBase
unfolding check_open
check_new_account v req =
    let hash = v.name_hash req.account in
    let n = acc_len req.account_char_str in
    branch (v.is_un_available hash)
      (reply (record unset { status = SearchStatus.un_available_account }))
      (branch (v.is_reserved hash) (reply (record unset { status = SearchStatus.reserved_account }))
        (branch (ltb n v.cfg.account_min_length || ltb v.cfg.account_max_length n)
          (reject account_len_invalid)
          (branch (leb v.cfg.open_account_min_length n && leb n v.cfg.open_account_max_length)
            (check_open v req) (reply unset))))

abbrev base_of : Service → ReqAccountSearch → AccountInfo → AccountBase
base_of v req acc = record {
  confirm_proposal_hash = acc.confirm_proposal_hash;
  status = format_account_status acc.status;
  is_self = is_owner v req acc;
  open_ts = 0;
}

abbrev pub base_from : Service → ReqAccountSearch → Option AccountInfo → Handler AccountBase
base_from v req none = check_new_account v req
base_from v req (some acc) = reply (base_of v req acc)

-- `checkAccountBase`
unfoldable pub check_account_base : Service → ReqAccountSearch → Handler AccountBase
unfolding from_dao get_account_info_by_account_id
check_account_base v req = do
  acc ← from_dao db_error (get_account_info_by_account_id (v.account_id req.account))
  base_from v req acc

-- `RegisterTx`, and the map of them, of which a later entry hides an earlier one.
pub record RegisterTx : Type 0 where
  pub chain_id : ChainType
  pub token_id : Option PayTokenId
  pub hash : Name

abbrev pub TxMap : Type 0
TxMap = List (RegisterStatus × RegisterTx)

-- The chain that the hash of a payment is shown for.
abbrev shown_chain : Service → PayTokenId → ChainType → ChainType
shown_chain v ckb_das chain = v.ckb_chain
shown_chain v ckb_ckb chain = v.ckb_chain
shown_chain v ckb_internal chain = v.ckb_chain
shown_chain v eth_eth chain = v.eth_chain
shown_chain v bsc_bnb chain = v.eth_chain
shown_chain v polygon_pol chain = v.eth_chain
shown_chain v tron_trx chain = v.tron_chain
shown_chain v _ chain = chain

-- The entry of the payment: none for a payment by card that is not confirmed.
abbrev pay_entry : Service → Order → Option PayInfo → TxMap
pay_entry v order none = []
pay_entry v order (some p) =
    if order.pay_token_id == stripe_usd && not (p.status == OrderTxStatus.confirm)
    then []
    else (
      RegisterStatus.confirm_payment,
      record {
        chain_id = shown_chain v order.pay_token_id p.chain_type;
        token_id = some order.pay_token_id;
        hash = p.hash;
      },
    )
      ∷ []

-- The cases of the loop over `txList`.
abbrev entry_status : OrderTxAction → Option RegisterStatus
entry_status apply_register = some RegisterStatus.apply_register
entry_status pre_register = some RegisterStatus.pre_register
entry_status propose = some RegisterStatus.proposal
entry_status confirm_proposal = some RegisterStatus.confirm_proposal
entry_status _ = none

abbrev add_entry : Service → Option RegisterStatus → Name → TxMap → TxMap
add_entry v none hash m = m
add_entry v (some status) hash m =
    (status, record { chain_id = v.ckb_chain; token_id = none; hash = hash }) ∷ m

unfoldable pub add_txs : Service → List OrderTx → TxMap → TxMap
add_txs v [] m = m
add_txs v (t ∷ ts) m = add_txs v ts (add_entry v (entry_status t.action) t.hash m)

-- An order with a payment of its own.
unfoldable pub get_payment_tx : Service → SearchStatus → Order → Handler (SearchStatus × TxMap)
unfolding from_dao get_pay_info_by_order_id
get_payment_tx v status order = do
  p ← from_dao db_error (get_pay_info_by_order_id order.order_id)
  reply (
    if order.register_status == RegisterStatus.registered && not (order.cross_coin_type == 0)
        then SearchStatus.on_cross
        else status,
    pay_entry v order p,
  )

-- What `checkAddressOrder` returns with `isGetOrderTx` for an order that counts.
unfoldable pub get_order_txs : Service → SearchStatus → Order → Handler (SearchStatus × TxMap)
unfolding from_dao get_payment_tx get_order_tx_list_by_order_id add_txs
get_order_txs v status order = do
  (shown, m) ←
      branch (order.order_type == self) (get_payment_tx v status order) (reply (status, []))
  tx_list ← from_dao db_error (get_order_tx_list_by_order_id order.order_id)
  reply (shown, add_txs v tx_list m)

-- `order.Timestamp`, which is 0 where there is no order.
abbrev timestamp_of : Option Order → ℕ
timestamp_of none = 0
timestamp_of (some o) = o.timestamp

abbrev is_absent : {A : Type 0} → Option A → Bool
is_absent none = true
is_absent (some a) = false

abbrev counts : Order → Bool
counts o = o.order_status == OrderStatus.default || o.register_status == RegisterStatus.registered

abbrev pub order_answer : Service → Bool → Option Order → Handler (SearchStatus × TxMap)
order_answer v is_get_order_tx none = reply (SearchStatus.register_able, [])
order_answer v is_get_order_tx (some o) =
    let status = format_register_status_to_search_status o.register_status in
    branch (counts o) (branch is_get_order_tx (get_order_txs v status o) (reply (status, [])))
      (reply (SearchStatus.register_able, []))

-- A year, in milliseconds
abbrev year : ℕ
year = 365 * 24 * 3600 * 1000

-- `checkAddressOrder`. An order of the address counts for a year, or as long as the account is there.
unfoldable pub check_address_order :
    Service → ReqAccountSearch → Bool → Handler (SearchStatus × TxMap)
unfolding from_dao get_latest_register_order_by_address get_account_info_by_account_id
check_address_order v req is_get_order_tx = do
  order ←
      from_dao db_error
        (get_latest_register_order_by_address req.chain_type req.address (v.account_id req.account))
  acc ← from_dao db_error (get_account_info_by_account_id (v.account_id req.account))
  branch (is_absent acc && ltb (timestamp_of order) (v.now - year))
      (reply (SearchStatus.register_able, [])) (order_answer v is_get_order_tx order)

abbrev pub latest_status : Option Order → SearchStatus
latest_status none = SearchStatus.register_able
latest_status (some o) = format_register_status_to_search_status o.register_status

-- `checkOtherAddressOrder`
unfoldable pub check_other_address_order : Service → ReqAccountSearch → Handler SearchStatus
unfolding from_dao get_latest_register_order_by_latest
check_other_address_order v req = do
  order ← from_dao db_error (get_latest_register_order_by_latest (v.account_id req.account))
  reply (latest_status order)

abbrev sub_account_of : Service → ReqAccountSearch → Option AccountInfo → SearchStatus × Bool
sub_account_of v req none = (SearchStatus.sub_account_un_register, false)
sub_account_of v req (some acc) = (format_account_status acc.status, is_owner v req acc)

-- `checkSubAccount`, for an account whose text has more than one dot
unfoldable pub check_sub_account : Service → ReqAccountSearch → Handler (SearchStatus × Bool)
unfolding from_dao get_account_info_by_account_id
check_sub_account v req = do
  acc ← from_dao db_error (get_account_info_by_account_id (v.account_id req.account))
  reply (sub_account_of v req acc)

-- `isSubAccount`
unfoldable pub is_sub_account : Service → Name → Bool
unfolding count_dots
is_sub_account v account = ltb 1 (count_dots (v.text account))
