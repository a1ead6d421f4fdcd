-- ===== src/Dao/Rows.antt =====
-- The shapes of statement that gorm sends: updates under a condition, insertions that a unique key
-- refuses, skips or turns into an update.
use das_register.Prelude.{
  suc, Bool, true, false, none, some, List, [], ◌∷◌, ◌++◌, ◌&&◌, length, find?, update_where,
  nat_coded, ◌==◌, if◌then◌else◌,
}
use das_register.Tables.Order.{Order}
use das_register.Tables.Pay.{PayInfo, OrderTx}
use das_register.Tables.Rest.{Coupon, PendingInfo}
use das_register.Dao.Store.{Statement}

-- How the driver answers in the two cases in which the source leans on it. gorm documents that
-- `Create` of an empty slice returns `ErrEmptySlice`; and its placeholder is the ASCII `?`, so the
-- full-width mark in one of the conditions is passed on to the server as it stands.
pub record Driver : Type 0 where
  pub creates_empty_slice : Bool
  pub binds_full_width_mark : Bool

abbrev pub update_orders : (Order → Bool) → (Order → Order) → Statement
update_orders p f db = some (record db { orders = update_where p f db.orders })

abbrev pub update_pays : (PayInfo → Bool) → (PayInfo → PayInfo) → Statement
update_pays p f db = some (record db { pays = update_where p f db.pays })

abbrev pub update_txs : (OrderTx → Bool) → (OrderTx → OrderTx) → Statement
update_txs p f db = some (record db { txs = update_where p f db.txs })

abbrev pub update_coupons : (Coupon → Bool) → (Coupon → Coupon) → Statement
update_coupons p f db = some (record db { coupons = update_where p f db.coupons })

abbrev pub update_pendings : (PendingInfo → Bool) → (PendingInfo → PendingInfo) → Statement
update_pendings p f db = some (record db { pendings = update_where p f db.pendings })

-- The unique key `uk_order_id`.
abbrev pub has_order : Order → List Order → Bool
has_order o rows = elim (find? (λ x. x.order_id == o.order_id) rows) [
  | none ↦ false
  | some _ ↦ true
]

abbrev pub append_order : Order → List Order → List Order
append_order o rows = rows ++ record o { id = suc (length rows) } ∷ []

abbrev pub insert_order : Order → Statement
insert_order o db =
    if has_order o db.orders then none else some (record db { orders = append_order o db.orders })

-- INSERT ... ON DUPLICATE KEY UPDATE of the six columns that `CreateOrderAndOrderTxs` names.
abbrev pub assign_order : Order → Order → Order
assign_order new old = record old {
  account_id = new.account_id;
  account = new.account;
  action = new.action;
  chain_type = new.chain_type;
  address = new.address;
  register_status = new.register_status;
}

abbrev pub upsert_order_rows : Order → List Order → List Order
upsert_order_rows o rows =
    if has_order o rows
    then update_where (λ x. x.order_id == o.order_id) (assign_order o) rows
    else append_order o rows

abbrev pub upsert_order : Order → Statement
upsert_order o db = some (record db { orders = upsert_order_rows o db.orders })

-- The unique key `uk_hash`.
abbrev pub has_pay : PayInfo → List PayInfo → Bool
has_pay p rows = elim (find? (λ x. x.hash == p.hash) rows) [ none ↦ false | some _ ↦ true ]

abbrev pub append_pay : PayInfo → List PayInfo → List PayInfo
append_pay p rows = rows ++ record p { id = suc (length rows) } ∷ []

abbrev pub insert_pay : PayInfo → Statement
insert_pay p db =
    if has_pay p db.pays then none else some (record db { pays = append_pay p db.pays })

-- INSERT IGNORE
abbrev pub insert_ignore_pay : PayInfo → Statement
insert_ignore_pay p db =
    some (record db { pays = if has_pay p db.pays then db.pays else append_pay p db.pays })

-- The unique key `uk_order_id_hash`.
abbrev pub same_tx : OrderTx → OrderTx → Bool
same_tx t x = x.order_id == t.order_id && x.hash == t.hash

abbrev pub has_tx : OrderTx → List OrderTx → Bool
has_tx t rows = elim (find? (same_tx t) rows) [ none ↦ false | some _ ↦ true ]

abbrev pub assign_tx : OrderTx → OrderTx → OrderTx
assign_tx new old = record old {
  action = new.action;
  status = new.status;
  timestamp = new.timestamp;
}

abbrev pub upsert_tx_rows : OrderTx → List OrderTx → List OrderTx
upsert_tx_rows t rows =
    if has_tx t rows
    then update_where (same_tx t) (assign_tx t) rows
    else rows ++ record t { id = suc (length rows) } ∷ []

pub upsert_all_txs : List OrderTx → List OrderTx → List OrderTx
upsert_all_txs [] rows = rows
upsert_all_txs (t ∷ ts) rows = upsert_all_txs ts (upsert_tx_rows t rows)

abbrev pub upsert_tx : OrderTx → Statement
upsert_tx t db = some (record db { txs = upsert_tx_rows t db.txs })

-- `Create` of a slice of transactions with the same clause.
abbrev pub upsert_txs : Driver → List OrderTx → Statement
upsert_txs driver [] db = if driver.creates_empty_slice then some db else none
upsert_txs driver (t ∷ ts) db = some (record db { txs = upsert_all_txs (t ∷ ts) db.txs })
