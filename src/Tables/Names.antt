-- ===== src/Tables/Names.antt =====
-- The strings of the tables. Ids, hashes, addresses and account names are only compared and tested
-- for emptiness, so a `Name` is a number, and 0 is the empty string. Actions and pay tokens are
-- enumerations of the constants that the source names, with a constructor for any other string.
use Prim.Native.String.{String}
use das_register.Prelude.{ℕ, ◌+◌, Coded}

abbrev pub Name : Type 0
Name = ℕ

abbrev pub ChainType : Type 0
ChainType = ℕ

-- `common.DasAction`, a string: the actions that the register service names.
pub data DasAction : Type 0 where
  apply_register pre_register propose extend_propose confirm_proposal renew_account transfer_account
        edit_records edit_manager bid_expired_account_auction config transfer_balance
        withdraw_from_wallet transfer did_cell_update :
      DasAction
  unnamed : ℕ → DasAction

instance abbrev pub das_action_coded : Coded DasAction
das_action_coded = record {
  code = elim [
    | apply_register ↦ 0
    | pre_register ↦ 1
    | propose ↦ 2
    | extend_propose ↦ 3
    | confirm_proposal ↦ 4
    | renew_account ↦ 5
    | transfer_account ↦ 6
    | edit_records ↦ 7
    | edit_manager ↦ 8
    | bid_expired_account_auction ↦ 9
    | config ↦ 10
    | transfer_balance ↦ 11
    | withdraw_from_wallet ↦ 12
    | transfer ↦ 13
    | did_cell_update ↦ 14
    | unnamed n ↦ 15 + n
  ];
}

pub data PayTokenId : Type 0 where
  ckb_das ckb_ckb ckb_internal eth_eth tron_trx wx_cny bsc_bnb polygon_pol coupon doge_doge
        stripe_usd eth_erc20_usdt tron_trc20_usdt bsc_bep20_usdt did_point padge_internal ckb_ccc :
      PayTokenId
  unnamed : ℕ → PayTokenId

instance abbrev pub pay_token_coded : Coded PayTokenId
pay_token_coded = record {
  code = elim [
    | ckb_das ↦ 0
    | ckb_ckb ↦ 1
    | ckb_internal ↦ 2
    | eth_eth ↦ 3
    | tron_trx ↦ 4
    | wx_cny ↦ 5
    | bsc_bnb ↦ 6
    | polygon_pol ↦ 7
    | coupon ↦ 8
    | doge_doge ↦ 9
    | stripe_usd ↦ 10
    | eth_erc20_usdt ↦ 11
    | tron_trc20_usdt ↦ 12
    | bsc_bep20_usdt ↦ 13
    | did_point ↦ 14
    | padge_internal ↦ 15
    | ckb_ccc ↦ 16
    | unnamed n ↦ 17 + n
  ];
}

-- `common.AccountCharSet`: one character of an account with the set that it is taken from.
pub record AccountCharSet : Type 0 where
  pub char_set_name : ℕ
  pub char : String
