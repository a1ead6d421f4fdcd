-- ===== src/Tables/Pay.antt =====
-- tables/t_das_order_pay_info.go and tables/t_das_order_tx_info.go: the payments of an order and
-- the chain transactions that were sent for it.
use das_register.Prelude.{ℕ, ◌+◌, Coded}
use das_register.Tables.Names.{Name, ChainType}
use das_register.Tables.Order.{TxStatus}

pub data OrderTxStatus : Type 0 where
  default confirm rejected dispute : OrderTxStatus

pub data UniPayRefundStatus : Type 0 where
  default un_refund refunding refunded : UniPayRefundStatus

pub data PayHashStatus : Type 0 where
  pending confirmed rejected : PayHashStatus

instance abbrev pub order_tx_status_coded : Coded OrderTxStatus
order_tx_status_coded = record {
  code = elim [
    | OrderTxStatus.default ↦ 0
    | OrderTxStatus.confirm ↦ 1
    | OrderTxStatus.rejected ↦ 2
    | OrderTxStatus.dispute ↦ 3
  ];
}

instance abbrev pub refund_status_coded : Coded UniPayRefundStatus
refund_status_coded = record {
  code = elim [
    | UniPayRefundStatus.default ↦ 0
    | UniPayRefundStatus.un_refund ↦ 1
    | UniPayRefundStatus.refunding ↦ 2
    | UniPayRefundStatus.refunded ↦ 3
  ];
}

instance abbrev pub pay_hash_status_coded : Coded PayHashStatus
pay_hash_status_coded = record {
  code = elim [
    | PayHashStatus.pending ↦ 0
    | PayHashStatus.confirmed ↦ 1
    | PayHashStatus.rejected ↦ 2
  ];
}

-- `TableDasOrderPayInfo`
pub record PayInfo : Type 0 where
  pub id : ℕ
  pub hash : Name
  pub order_id : Name
  pub chain_type : ChainType
  pub address : Name
  pub status : OrderTxStatus
  pub timestamp : ℕ
  pub account_id : Name
  pub refund_status : TxStatus
  pub uni_pay_refund_status : UniPayRefundStatus
  pub refund_hash : Name

pub data OrderTxAction : Type 0 where
  confirm_payment apply_register pre_register propose confirm_proposal renew_account
        transfer_account :
      OrderTxAction
  unnamed : ℕ → OrderTxAction

instance abbrev pub order_tx_action_coded : Coded OrderTxAction
order_tx_action_coded = record {
  code = elim [
    | confirm_payment ↦ 0
    | apply_register ↦ 1
    | pre_register ↦ 2
    | propose ↦ 3
    | confirm_proposal ↦ 4
    | renew_account ↦ 5
    | transfer_account ↦ 6
    | unnamed n ↦ 7 + n
  ];
}

-- `TableDasOrderTxInfo`
pub record OrderTx : Type 0 where
  pub id : ℕ
  pub order_id : Name
  pub hash : Name
  pub action : OrderTxAction
  pub status : OrderTxStatus
  pub timestamp : ℕ
