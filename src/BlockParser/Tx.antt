-- ===== src/BlockParser/Tx.antt =====
-- What the block parser reads of a transaction and of a block. The witnesses, the cells and the
-- scripts are decoded by das-lib, so what it makes of a transaction is a field of the transaction.
use das_register.Prelude.{ℕ, List}
use das_register.Tables.Names.{Name, ChainType, DasAction}
use das_register.Tables.Order.{OrderType}
use das_register.Dao.Store.{Result, Done}
use das_register.Dao.Rows.{Driver}
use das_register.Prelude.{Bool, Option}

-- The owner that `ArgsToHex` reads of a cell's lock, with the account of the cell and its id.
pub record AccountCell : Type 0 where
  pub account : Name
  pub account_id : Name
  pub chain_type : ChainType
  pub address_hex : Name

-- The contracts whose type id `isCurrentVersionTx` looks for among the outputs.
pub data ContractName : Type 0 where
  apply_register_cell_type pre_account_cell_type proposal_cell_type config_cell_type
        account_cell_type :
      ContractName

pub record Tx : Type 0 where
  pub tx_hash : Name
  -- the action of `ActionDataBuilderFromTx`, `none` where it fails or names no action
  pub action : Option DasAction
  pub is_current_version_tx : ContractName → Result Bool
  -- `OutPoint2String(TxHash, 0)`
  pub outpoint : Name
  -- the hash of the first input's previous output
  pub first_input_hash : Name
  -- `ProposalCellDataBuilderFromTx`, then the hash of the proposal's previous output
  pub propose_hash : Result Name
  -- `PreAccountCellDataBuilderMapFromTx`: the hashes of the pre-register transactions
  pub pre_hash_list : Result (List Name)
  -- `PreAccountIdCellDataBuilderFromTx` and `AccountIdCellDataBuilderFromTx`
  pub pre_account_ids : Result (List Name)
  pub accounts : Result Done
  -- the new pre-account cell, and the new account cell, with their owners
  pub pre_account : Result AccountCell
  pub account : Result AccountCell
  -- the account cell as it was, with the transaction that made it
  pub old_account : Result Done
  -- whether a cell of the transaction has the das-lock and no type but the balance type
  pub has_das_balance_cell : Result Bool

pub record Block : Type 0 where
  pub number : ℕ
  pub timestamp : ℕ
  pub hash : Name
  pub parent_hash : Name
  pub transactions : List Tx

-- `CreateOrderId` hashes its arguments with MD5; `GetBlockByNumber`, `checkContractVersion` and
-- `AsyncDasConfigCell` ask the chain.
pub record Env : Type 0 where
  pub driver : Driver
  pub create_order_id : OrderType → Name → DasAction → ChainType → Name → ℕ → Name
  pub get_block_by_number : ℕ → Option Block
  pub check_contract_version : Result Done
  pub async_das_config_cell : Result Done
