-- ===== src/Dao/Rejections.antt =====
-- dao/t_das_order_tx_info.go, `UpdateRejectedTx`, and dao/t_das_order_info.go, `DoActionRenewAccount`:
-- two writes that do not do what they are meant to.
use das_register.Prelude.{
  ℕ, zero, suc, ◌≤◌, ◌<◌, All, arith, update_where, [], Bool, true, false, List, ◌∷◌, ◌≡◌, refl,
  ◌&&◌, ◌==◌, nat_coded, none, if◌then◌else◌,
}
use das_register.Tables.Names.{Name}
use das_register.Tables.Order.{
  Order, TxStatus, OrderStatus, order_status_coded, order_type_coded, tx_status_coded,
}
use das_register.Tables.Pay.{OrderTxAction, apply_register, renew_account}
use das_register.Tables.Order.{did_cell_coded}
use das_register.Tables.Pay.{order_tx_status_coded}
use das_register.Dao.Store.{
  transaction, all_of, Call, Db, Statement, World, Result, Done, Error, ok, err, Outcome, ◌then◌,
  exec, open_transaction, transaction-Outcome,
}
use das_register.Dao.Rows.{Driver}
use das_register.Dao.Orders.{do_action_propose, do_action_confirm_proposal, do_action_renew_account}
use das_register.Dao.Payments.{update_rejected_tx}

-- A run that returned an error and did nothing.
abbrev pub Refused : World → Result Done × World → Type 0
Refused w (ok _, w') = ⊥
Refused w (err _, w') = (w'.db ≡ w.db) × (w'.sent ≡ w.sent)

Outcome-Refused :
    (f : Statement) (w : World) (p : Result Done × World)
    → f w.db ≡ none
    → Outcome f w p
    → Refused w p
Outcome-Refused f w (ok _, w') e (done, rest, quiet) = cc (e, done)
Outcome-Refused f w (err _, w') e (same, why, quiet) = (same, quiet)

transaction-Refused :
    (fs : List Statement) (w : World) → all_of fs w.db ≡ none → Refused w (transaction fs w)
transaction-Refused fs w e =
    Outcome-Refused (all_of fs) w (transaction fs w) e (transaction-Outcome fs w)

-- The actions whose rejected transaction is to be sent again from the pay status.
pub data Resent : OrderTxAction → Type 0 where
  apply : Resent apply_register
  renew : Resent renew_account

-- When the driver does not bind the full-width question mark, `UpdateRejectedTx` returns an error
-- for every rejected apply or renew transaction and leaves the database as it was: the transaction
-- is not marked as rejected and its order is not sent again.
pub update_rejected_tx-Refused :
    (driver : Driver) (action : OrderTxAction) (id : Name) (w : World) (r : Resent action)
    → driver.binds_full_width_mark ≡ false
    → Refused w (update_rejected_tx driver action id w)
unfolding update_rejected_tx
update_rejected_tx-Refused driver _ id w Resent.apply e = transaction-Refused _ w (rw e refl)
update_rejected_tx-Refused driver _ id w Resent.renew e = transaction-Refused _ w (rw e refl)

-- When the driver refuses to create an empty slice, `DoActionPropose` and `DoActionConfirmProposal`
-- return an error and change nothing where no transaction of the proposal is known, however often
-- they are tried: the accounts of the proposal are not closed and no payment is marked.
pub proposal-Refused :
    (driver : Driver) (order_ids ok_order_ids account_ids : List Name) (w : World)
    → driver.creates_empty_slice ≡ false
    → Refused w (do_action_propose driver order_ids [] w)
      × Refused w (do_action_confirm_proposal driver order_ids ok_order_ids account_ids [] w)
unfolding do_action_propose do_action_confirm_proposal
proposal-Refused driver order_ids ok_order_ids account_ids w e =
    (transaction-Refused _ w (rw e refl), transaction-Refused _ w (rw e refl))

-- No row of the order is open.
abbrev pub IsShut : Name → Order → Type 0
IsShut id o = o.order_id == id && o.order_status == OrderStatus.default ≡ false

IsShut-by_close :
    (id : Name) (rows : List Order)
    → All (IsShut id) (
        update_where
          (λ o. o.order_id == id && o.order_status == OrderStatus.default)
          (λ o. record o { order_status = OrderStatus.closed })
          rows)
IsShut-by_close id [] = tt
IsShut-by_close id (o ∷ rows) = (
  by_row (o.order_id == id && o.order_status == OrderStatus.default) refl,
  IsShut-by_close id rows,
)
  where
    by_row :
        (b : Bool)
        → o.order_id == id && o.order_status == OrderStatus.default ≡ b
        → IsShut id (if b then record o { order_status = OrderStatus.closed } else o)
    by_row true e = ground arith
    by_row false e = e

IsShut-after :
    (id : Name) (p : Order → Bool) (rows : List Order)
    → All (IsShut id) rows
    → All (IsShut id) (update_where p (λ o. record o { hedge_status = TxStatus.sending }) rows)
IsShut-after id p [] shut = tt
IsShut-after id p (o ∷ rows) (first, rest) = (by_row (p o), IsShut-after id p rows rest)
  where
    by_row : (b : Bool) → IsShut id (if b then record o { hedge_status = TxStatus.sending } else o)
    by_row true = first
    by_row false = first

-- A schedule whose first fault is at the statement `n`, counted from 0.
abbrev pub first_fault : ℕ → List Bool → List Bool
first_fault zero later = true ∷ later
first_fault (suc n) later = false ∷ first_fault n later

-- An error, after which no row of the order is open, and the transactions are as they were.
abbrev pub ClosedOnly : Name → Db → Result Done × World → Type 0
ClosedOnly id db (r, w) =
    (r ≡ err Error.db_error) × (w.db.txs ≡ db.txs) × All (IsShut id) w.db.orders

-- `DoActionRenewAccount` is not atomic: if BEGIN and its first update are done, and any statement after
-- those is the first to meet a fault, that which hedges the order, that which confirms the transaction
-- or COMMIT, then it returns an error, and every row of the order is closed all the same, while no
-- transaction is confirmed.
pub do_action_renew_account-committed :
    (n : ℕ) (db : Db) (later : List Bool) (sent : List Call) (id hash : Name)
    → 2 ≤ n
    → n < 5
    → ClosedOnly id db (
        do_action_renew_account id hash
          (record { db = db; faults = first_fault n later; sent = sent }))
unfolding do_action_renew_account exec open_transaction
do_action_renew_account-committed zero db later sent id hash lo hi = absurd (omega (arith, lo))
do_action_renew_account-committed (suc zero) db later sent id hash lo hi =
    absurd (omega (arith, lo))
do_action_renew_account-committed (suc (suc zero)) db later sent id hash lo hi =
    (refl, refl, IsShut-by_close id db.orders)
do_action_renew_account-committed (suc (suc (suc zero))) db later sent id hash lo hi =
    (refl, refl, IsShut-after id _ _ (IsShut-by_close id db.orders))
do_action_renew_account-committed (suc (suc (suc (suc zero)))) db later sent id hash lo hi =
    (refl, refl, IsShut-after id _ _ (IsShut-by_close id db.orders))
do_action_renew_account-committed (suc (suc (suc (suc (suc n))))) db later sent id hash lo hi =
    absurd (omega (arith, hi))
