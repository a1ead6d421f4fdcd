-- ===== src/Tables/Order.antt =====
-- tables/t_das_order_info.go: the row of `t_das_order_info` and its enumerations. The columns
-- `created_at` and `updated_at`, which only the database writes and no query reads, are left out.
use das_register.Prelude.{ℕ, Bool, Option, none, some, List, Coded, ◌==◌}
use das_register.Tables.Names.{
  Name, ChainType, DasAction, PayTokenId, pay_token_coded, ckb_internal, AccountCharSet,
}

pub data IsUniPay : Type 0 where
  uni_pay_false uni_pay_true : IsUniPay

pub data IsDidCell : Type 0 where
  did_cell_no did_cell_yes : IsDidCell

pub data OrderType : Type 0 where
  self other : OrderType

pub data TxStatus : Type 0 where
  default sending ok : TxStatus

pub data OrderStatus : Type 0 where
  default closed : OrderStatus

pub data RegisterStatus : Type 0 where
  default confirm_payment apply_register pre_register proposal confirm_proposal registered :
      RegisterStatus

instance abbrev pub uni_pay_coded : Coded IsUniPay
uni_pay_coded = record { code = elim [ uni_pay_false ↦ 0 | uni_pay_true ↦ 1 ] }

instance abbrev pub did_cell_coded : Coded IsDidCell
did_cell_coded = record { code = elim [ did_cell_no ↦ 0 | did_cell_yes ↦ 1 ] }

instance abbrev pub order_type_coded : Coded OrderType
order_type_coded = record { code = elim [ self ↦ 1 | other ↦ 2 ] }

instance abbrev pub tx_status_coded : Coded TxStatus
tx_status_coded = record {
  code = elim [ TxStatus.default ↦ 0 | TxStatus.sending ↦ 1 | TxStatus.ok ↦ 2 ];
}

instance abbrev pub order_status_coded : Coded OrderStatus
order_status_coded = record { code = elim [ OrderStatus.default ↦ 0 | OrderStatus.closed ↦ 1 ] }

abbrev register_code : RegisterStatus → ℕ
register_code RegisterStatus.default = 0
register_code RegisterStatus.confirm_payment = 1
register_code RegisterStatus.apply_register = 2
register_code RegisterStatus.pre_register = 3
register_code RegisterStatus.proposal = 4
register_code RegisterStatus.confirm_proposal = 5
register_code RegisterStatus.registered = 6

instance abbrev pub register_status_coded : Coded RegisterStatus
register_status_coded = record { code = register_code }

-- `TableOrderContent`, with the decimals in cents and in shannons.
pub record OrderContent : Type 0 where
  pub account_char_str : List AccountCharSet
  pub inviter_account : Name
  pub channel_account : Name
  pub register_years : ℕ
  pub amount_total_usd : ℕ
  pub amount_total_ckb : ℕ
  pub renew_years : ℕ

-- The `content` column: empty, the JSON of an `OrderContent`, or a text that is not one.
pub data Content : Type 0 where
  empty : Content
  encoded : OrderContent → Content
  malformed : Content

pub record Order : Type 0 where
  pub id : ℕ
  pub order_type : OrderType
  pub order_id : Name
  pub account_id : Name
  pub account : Name
  pub action : DasAction
  pub chain_type : ChainType
  pub address : Name
  pub timestamp : ℕ
  pub pay_token_id : PayTokenId
  pub pay_type : Name
  pub pay_amount : ℕ
  pub content : Content
  pub pay_status : TxStatus
  pub hedge_status : TxStatus
  pub pre_register_status : TxStatus
  pub register_status : RegisterStatus
  pub order_status : OrderStatus
  pub coin_type : Name
  pub cross_coin_type : Name
  pub is_uni_pay : IsUniPay
  pub premium_percentage : ℕ
  pub premium_base : ℕ
  pub premium_amount : ℕ
  pub is_did_cell : IsDidCell

abbrev pub no_content : OrderContent
no_content = record {
  account_char_str = List.[];
  inviter_account = 0;
  channel_account = 0;
  register_years = 0;
  amount_total_usd = 0;
  amount_total_ckb = 0;
  renew_years = 0;
}

-- `none` is the error of `json.Unmarshal`.
unfoldable pub get_content : Content → Option OrderContent
get_content empty = some no_content
get_content (encoded c) = some c
get_content malformed = none

-- `IsTokenIdCkbInternal`
unfoldable pub is_token_id_ckb_internal : PayTokenId → Bool
is_token_id_ckb_internal p = p == ckb_internal

pub data SearchStatus : Type 0 where
  register_not_open register_able payment_confirm locked_account registering proposal
        confirm_proposal registered reserved_account on_sale on_auction un_available_account
        sub_account_un_register on_cross on_dutch_auction auction_recycling on_approval
        on_upgrade_did_cell :
      SearchStatus

-- The constants from -1 on, each raised by one.
instance abbrev pub search_status_coded : Coded SearchStatus
search_status_coded = record {
  code = elim [
    | SearchStatus.register_not_open ↦ 0
    | SearchStatus.register_able ↦ 1
    | SearchStatus.payment_confirm ↦ 2
    | SearchStatus.locked_account ↦ 3
    | SearchStatus.registering ↦ 4
    | SearchStatus.proposal ↦ 5
    | SearchStatus.confirm_proposal ↦ 6
    | SearchStatus.registered ↦ 7
    | SearchStatus.reserved_account ↦ 8
    | SearchStatus.on_sale ↦ 9
    | SearchStatus.on_auction ↦ 10
    | SearchStatus.un_available_account ↦ 14
    | SearchStatus.sub_account_un_register ↦ 15
    | SearchStatus.on_cross ↦ 16
    | SearchStatus.on_dutch_auction ↦ 18
    | SearchStatus.auction_recycling ↦ 19
    | SearchStatus.on_approval ↦ 20
    | SearchStatus.on_upgrade_did_cell ↦ 21
  ];
}

-- `FormatRegisterStatusToSearchStatus`
unfoldable pub format_register_status_to_search_status : RegisterStatus → SearchStatus
format_register_status_to_search_status RegisterStatus.registered = SearchStatus.registered
format_register_status_to_search_status RegisterStatus.confirm_proposal =
    SearchStatus.confirm_proposal
format_register_status_to_search_status RegisterStatus.proposal = SearchStatus.proposal
format_register_status_to_search_status RegisterStatus.pre_register = SearchStatus.registering
format_register_status_to_search_status RegisterStatus.apply_register = SearchStatus.locked_account
format_register_status_to_search_status RegisterStatus.confirm_payment =
    SearchStatus.payment_confirm
format_register_status_to_search_status RegisterStatus.default = SearchStatus.register_able
