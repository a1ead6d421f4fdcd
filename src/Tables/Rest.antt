-- ===== src/Tables/Rest.antt =====
-- tables/t_coupon.go, tables/t_register_pending_info.go, tables/t_block_parser_info.go and
-- tables/t_account_info.go: the gift cards, the transactions of the user that wait for the chain,
-- the blocks that were parsed, and the accounts, which das-database writes. Times are in seconds.
use das_register.Prelude.{ℕ, ◌+◌, Bool, Coded, leb, ◌==◌}
use das_register.Tables.Names.{Name, ChainType, DasAction}
use das_register.Tables.Order.{SearchStatus}

pub data CouponType : Type 0 where
  four_byte five_byte : CouponType
  unnamed : ℕ → CouponType

instance abbrev pub coupon_type_coded : Coded CouponType
coupon_type_coded = record { code = elim [ four_byte ↦ 1 | five_byte ↦ 2 | unnamed n ↦ 3 + n ] }

pub data CouponStatus : Type 0 where
  not_found used expired available : CouponStatus

-- `TableCoupon`; `is_check` is 0 or 1
pub record Coupon : Type 0 where
  pub id : ℕ
  pub code : Name
  pub coupon_type : CouponType
  pub order_id : Name
  pub use_at : ℕ
  pub expired_at : ℕ
  pub start_at : ℕ
  pub is_check : ℕ

-- The constants `StatusRejected`, `StatusConfirm` and `StatusPending`: -1, 1 and 0.
pub data PendingStatus : Type 0 where
  rejected confirm pending : PendingStatus

instance abbrev pub pending_status_coded : Coded PendingStatus
pending_status_coded = record {
  code = elim [
    | PendingStatus.pending ↦ 0
    | PendingStatus.confirm ↦ 1
    | PendingStatus.rejected ↦ 2
  ];
}

-- `TableRegisterPendingInfo`
pub record PendingInfo : Type 0 where
  pub id : ℕ
  pub block_number : ℕ
  pub account : Name
  pub action : DasAction
  pub chain_type : ChainType
  pub address : Name
  pub capacity : ℕ
  pub outpoint : Name
  pub block_timestamp : ℕ
  pub status : PendingStatus

-- `TableBlockParserInfo`, of the parser `ParserTypeDAS`
pub record BlockInfo : Type 0 where
  pub block_number : ℕ
  pub block_hash : Name
  pub parent_hash : Name

pub data AccountStatus : Type 0 where
  not_open_register normal on_sale on_auction on_cross on_approval on_upgrade : AccountStatus

instance abbrev pub account_status_coded : Coded AccountStatus
account_status_coded = record {
  code = elim [
    | AccountStatus.normal ↦ 0
    | AccountStatus.on_sale ↦ 1
    | AccountStatus.on_auction ↦ 2
    | AccountStatus.on_cross ↦ 3
    | AccountStatus.on_approval ↦ 4
    | AccountStatus.on_upgrade ↦ 153
    | AccountStatus.not_open_register ↦ 154
  ];
}

-- The columns of `TableAccountInfo` that the register service reads.
pub record AccountInfo : Type 0 where
  pub id : ℕ
  pub account_id : Name
  pub account : Name
  pub owner_chain_type : ChainType
  pub owner : Name
  pub status : AccountStatus
  pub expired_at : ℕ
  pub confirm_proposal_hash : Name
  pub parent_account_id : Name

-- `IsExpired`, at the time `now`
unfoldable pub is_expired : ℕ → AccountInfo → Bool
is_expired now t = leb t.expired_at now

-- `CheckStatus`
unfoldable check_status : AccountInfo → Bool
check_status t = t.status == AccountStatus.normal

-- `FormatAccountStatus`
unfoldable pub format_account_status : AccountStatus → SearchStatus
format_account_status AccountStatus.normal = SearchStatus.registered
format_account_status AccountStatus.on_sale = SearchStatus.on_sale
format_account_status AccountStatus.on_auction = SearchStatus.on_auction
format_account_status AccountStatus.on_cross = SearchStatus.on_cross
format_account_status AccountStatus.on_approval = SearchStatus.on_approval
format_account_status AccountStatus.on_upgrade = SearchStatus.on_upgrade_did_cell
format_account_status AccountStatus.not_open_register = SearchStatus.register_able
