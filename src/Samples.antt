-- ===== src/Samples.antt =====
-- A small database and the world around it, on which the theorems are tried.
pub mod Shop
use das_register.Prelude.{true, false, some, [], ◌∷◌, nat_coded}
use das_register.Tables.Names.{DasAction, ckb_das}
use das_register.Tables.Order.{
  Order, self, TxStatus, OrderStatus, RegisterStatus, uni_pay_true, uni_pay_false, did_cell_no,
  no_content, encoded,
}
use das_register.Tables.Pay.{PayInfo, OrderTx, OrderTxStatus, UniPayRefundStatus, apply_register}
use das_register.Tables.Rest.{BlockInfo}
use das_register.Dao.Store.{Db, World, ok}
use das_register.Dao.Rows.{Driver}
use das_register.Unipay.Confirm.{Clock, EventInfo, EventType}
use das_register.TxTool.Register.{Chain, Sent}
use das_register.BlockParser.Tx.{Block, Env}

-- Order 11 for account 5, which is not paid, and order 12 for the same account, which is.
abbrev pub unpaid : Order
unpaid = record {
  id = 1;
  order_type = self;
  order_id = 11;
  account_id = 5;
  account = 6;
  action = DasAction.apply_register;
  chain_type = 1;
  address = 7;
  timestamp = 1000;
  pay_token_id = ckb_das;
  pay_type = 0;
  pay_amount = 100;
  content = encoded no_content;
  pay_status = TxStatus.default;
  hedge_status = TxStatus.default;
  pre_register_status = TxStatus.default;
  register_status = RegisterStatus.confirm_payment;
  order_status = OrderStatus.default;
  coin_type = 0;
  cross_coin_type = 0;
  is_uni_pay = uni_pay_true;
  premium_percentage = 0;
  premium_base = 0;
  premium_amount = 0;
  is_did_cell = did_cell_no;
}

abbrev pub proposed : Order
proposed = record unpaid {
  id = 2;
  order_id = 12;
  pay_status = TxStatus.ok;
  register_status = RegisterStatus.proposal;
}

abbrev pub payment : PayInfo
payment = record {
  id = 0;
  hash = 21;
  order_id = 11;
  chain_type = 1;
  address = 7;
  status = OrderTxStatus.confirm;
  timestamp = 2000;
  account_id = 5;
  refund_status = TxStatus.default;
  uni_pay_refund_status = UniPayRefundStatus.default;
  refund_hash = 0;
}

-- The same payment, reported later.
abbrev pub payment_again : PayInfo
payment_again = record payment { timestamp = 3000 }

abbrev pub apply_tx : OrderTx
apply_tx = record {
  id = 1;
  order_id = 12;
  hash = 31;
  action = apply_register;
  status = OrderTxStatus.default;
  timestamp = 1500;
}

abbrev pub block_100 : BlockInfo
block_100 = record { block_number = 100; block_hash = 41; parent_hash = 40 }

abbrev pub block_3 : BlockInfo
block_3 = record { block_number = 3; block_hash = 43; parent_hash = 42 }

abbrev pub sample_db : Db
sample_db = record {
  orders = unpaid ∷ proposed ∷ [];
  pays = [];
  txs = apply_tx ∷ [];
  coupons = [];
  pendings = [];
  blocks = block_100 ∷ [];
  accounts = [];
}

abbrev pub early_db : Db
early_db = record sample_db { blocks = block_3 ∷ [] }

abbrev pub sample_world : World
sample_world = record { db = sample_db; faults = []; sent = [] }

-- The second statement to come fails.
abbrev pub faulty_world : World
faulty_world = record sample_world { faults = false ∷ true ∷ [] }

-- gorm's own answers.
abbrev pub gorm : Driver
gorm = record { creates_empty_slice = false; binds_full_width_mark = false }

abbrev pub lenient : Driver
lenient = record { creates_empty_slice = false; binds_full_width_mark = true }

abbrev pub clock : Clock
clock = record { now = 200000000; to_chain_type = λ a. a }

abbrev pub pay_event : EventInfo
pay_event = record {
  event_type = EventType.order_pay;
  order_id = 11;
  pay_hash = 21;
  pay_address = 7;
  algorithm_id = 3;
  refund_hash = 0;
}

abbrev pub chain : Chain
chain = record {
  now = 200000000;
  reboot_seconds = 100;
  build = λ o. true;
  send = λ o. Sent.hash 31;
  is_live = λ h. ok true;
  apply_min_waiting_block_number = ok 4;
  tip_block_number = ok 200;
  block_number_of = λ h. ok 100;
  scripts_found = λ c. true;
  did_cell_tx = λ id. true;
  is_skipped = λ e. false;
}

-- Block 101, whose parent is not the block 100 that was recorded.
abbrev pub forked_block : Block
forked_block = record {
  number = 101;
  timestamp = 2500;
  hash = 52;
  parent_hash = 51;
  transactions = [];
}

abbrev pub env : Env
env = record {
  driver = gorm;
  create_order_id = λ t i a c h n. i;
  get_block_by_number = λ n. some forked_block;
  check_contract_version = ok tt;
  async_das_config_cell = ok tt;
}

-- Order 11, paid and to be applied for, alone in the table; and a chain that refuses.
abbrev pub ready : Order
ready = record unpaid {
  pay_status = TxStatus.sending;
  register_status = RegisterStatus.apply_register;
}

abbrev pub ready_db : Db
ready_db = record sample_db { orders = ready ∷ [] }

abbrev pub refusing_chain : Chain
refusing_chain = record chain { send = λ o. Sent.failed }

-- A payment that waits for a refund, of an order that was not made through unipay.
abbrev pub waiting : PayInfo
waiting = record payment { id = 1; uni_pay_refund_status = UniPayRefundStatus.un_refund }

abbrev pub refund_db : Db
refund_db = record sample_db {
  orders = record unpaid { is_uni_pay = uni_pay_false } ∷ [];
  pays = waiting ∷ [];
}
