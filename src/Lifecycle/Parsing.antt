-- ===== src/Lifecycle/Parsing.antt =====
-- The block parser as a sequence of the writes.
use das_register.Prelude.{ℕ, zero, suc, Bool, true, false, Option, none, some, not, ◌+◌}
use das_register.Tables.Names.{Name, DasAction}
use das_register.Tables.Order.{Order}
use das_register.Tables.Pay.{OrderTx}
use das_register.Dao.Store.{Db, Done, Exec, Result, ok, err, World}
use das_register.Dao.Keeps.{Keeps}
use das_register.Dao.Queries.{
  get_order_tx_by_hash, get_order_tx_by_action_and_hash_list, get_history_ok_orders,
  get_order_by_order_id, get_account_info_by_account_id,
}
use das_register.Dao.Others.{find_block_info_by_block_number}
use das_register.BlockParser.Tx.{
  Tx, Block, Env, AccountCell, ContractName, config_cell_type, apply_register_cell_type,
  pre_account_cell_type, proposal_cell_type, account_cell_type,
}
use das_register.BlockParser.Handlers.{
  Req, if_current_version, after_get_order, with_error, apply_found, action_apply_register,
  pre_found, action_pre_register, action_propose, action_confirm_proposal, renew_found,
  action_renew_account, confirm_pending, action_edit_account, action_bid_expired_account_auction,
  did_cell_action_update, action_balance, action_config_cell, handle,
}
use das_register.BlockParser.Run.{
  Parse, parsing_block_data, check_fork, record_block, clean_up, stepped, fork_checked, with_block,
  parser_sub_mode, parser_rounds, parser_concurrency_mode, choose_mode, by_mode, run_turn, Mode,
  concurrency, sub, idle, u64, u64_sub,
}
use das_register.Lifecycle.Writes.{Write, perform, Reach}
use das_register.Lifecycle.Chain.{Reach-Preorder, writes, reads, next, also, each, rest, either}

versioned :
    (req : Req) (name : ContractName) {body : Exec Done}
    → Keeps Reach body
    → Keeps Reach (if_current_version req name body)
versioned req name keep =
    next (rest (req.tx.is_current_version_tx name)) (λ cv. either (not cv) (rest (ok tt)) keep)

with_error-Reach :
    (db : Db) (found : Result (Option Order)) (p : Result Done × World)
    → Reach db p.1.db
    → Reach db (with_error found p).1.db
with_error-Reach db found (err e, w) r = r
with_error-Reach db (ok _) (ok _, w) r = r
with_error-Reach db (err e) (ok _, w) r = r

found-Reach : (id : Name) {k : Exec Done} → Keeps Reach k → Keeps Reach (after_get_order id k)
unfolding get_order_by_order_id
found-Reach id {k = k} keep = record {
  kept = λ w.
      with_error-Reach w.db (get_order_by_order_id id w).0 (k (get_order_by_order_id id w).1) (
        Reach-Preorder.join w.db (get_order_by_order_id id w).1.db _ ((reads _).kept w)
          (keep.kept _));
}

apply_found-Reach : (o : Option OrderTx) → Keeps Reach (apply_found o)
unfolding perform
apply_found-Reach none = rest (ok tt)
apply_found-Reach (some t) =
    found-Reach t.order_id (writes (Write.apply_confirmed t.order_id t.hash))

pre_found-Reach : (env : Env) (req : Req) (o : Option OrderTx) → Keeps Reach (pre_found env req o)
unfolding perform get_account_info_by_account_id
pre_found-Reach env req (some t) =
    found-Reach t.order_id (writes (Write.pre_register_confirmed t.order_id t.hash))
pre_found-Reach env req none =
    next (rest req.tx.pre_account)
      (λ cell. next (reads _) (λ acc. writes (Write.other_order env.driver _ _)))

renew_found-Reach :
    (env : Env) (req : Req) (cell : AccountCell) (o : Option OrderTx)
    → Keeps Reach (renew_found env req cell o)
unfolding perform
renew_found-Reach env req cell (some t) =
    found-Reach t.order_id (writes (Write.renew_confirmed t.order_id req.tx.tx_hash))
renew_found-Reach env req cell none = writes (Write.other_order env.driver _ _)

pending-Reach : (req : Req) → Keeps Reach (confirm_pending req)
unfolding perform
pending-Reach req = writes (Write.pending_on_chain _ _ _ _)

balance-Reach : (req : Req) → Keeps Reach (action_balance req)
unfolding action_balance
balance-Reach req =
    next (rest req.tx.has_das_balance_cell) (λ b. either (not b) (rest (ok tt)) (pending-Reach req))

propose-Reach : (env : Env) (req : Req) → Keeps Reach (action_propose env req)
unfolding action_propose get_order_tx_by_action_and_hash_list perform
propose-Reach env req = versioned req proposal_cell_type (
    next (rest req.tx.pre_hash_list)
      (λ hashes. next (reads _) (λ list. writes (Write.proposed env.driver _ _))))

confirm-Reach : (env : Env) (req : Req) → Keeps Reach (action_confirm_proposal env req)
unfolding action_confirm_proposal get_order_tx_by_action_and_hash_list get_history_ok_orders perform
confirm-Reach env req = versioned req account_cell_type (
    next (rest req.tx.propose_hash) (λ h. next (reads _) (λ list.
      next (rest req.tx.pre_account_ids) (λ ids. also (rest req.tx.accounts) (
        next (reads _)
          (λ oks. also (reads _) (writes (Write.proposal_confirmed env.driver _ _ _ _))))))))

edit-Reach : (req : Req) → Keeps Reach (action_edit_account req)
unfolding action_edit_account
edit-Reach req = versioned req account_cell_type (pending-Reach req)

pub handle-Reach : (env : Env) (a : DasAction) (req : Req) → Keeps Reach (handle env a req)
unfolding handle action_config_cell action_apply_register action_pre_register action_renew_account
    action_bid_expired_account_auction did_cell_action_update get_order_tx_by_hash
handle-Reach env DasAction.config req =
    versioned req config_cell_type (rest env.async_das_config_cell)
handle-Reach env DasAction.transfer_balance req = balance-Reach req
handle-Reach env DasAction.withdraw_from_wallet req = balance-Reach req
handle-Reach env DasAction.transfer req = balance-Reach req
handle-Reach env DasAction.apply_register req =
    versioned req apply_register_cell_type (next (reads _) (λ o. apply_found-Reach o))
handle-Reach env DasAction.pre_register req =
    versioned req pre_account_cell_type (next (reads _) (λ o. pre_found-Reach env req o))
handle-Reach env DasAction.propose req = propose-Reach env req
handle-Reach env DasAction.extend_propose req = propose-Reach env req
handle-Reach env DasAction.confirm_proposal req = confirm-Reach env req
handle-Reach env DasAction.renew_account req = versioned req account_cell_type (
    also (rest req.tx.old_account)
      (next (rest req.tx.account) (λ cell. next (reads _) (λ o. renew_found-Reach env req cell o))))
handle-Reach env DasAction.edit_records req = edit-Reach req
handle-Reach env DasAction.edit_manager req = edit-Reach req
handle-Reach env DasAction.transfer_account req = edit-Reach req
handle-Reach env DasAction.bid_expired_account_auction req =
    versioned req account_cell_type (also (rest req.tx.account) (pending-Reach req))
handle-Reach env DasAction.did_cell_update req = pending-Reach req
handle-Reach env (DasAction.unnamed n) req = rest (ok tt)

tx-Reach :
    (env : Env) (block : Block) (tx : Tx) (a : Option DasAction)
    → Keeps Reach (elim a [
      | none ↦ λ w. (ok tt, w)
      | some action ↦ handle env action (record {
        tx = tx;
        block_number = block.number;
        block_timestamp = block.timestamp;
        action = action;
      })
    ])
tx-Reach env block tx none = rest (ok tt)
tx-Reach env block tx (some a) = handle-Reach env a _

record-Reach : (env : Env) (block : Block) (n : ℕ) → Keeps Reach (record_block env block n)
unfolding parsing_block_data perform
record-Reach env block n =
    also
      (also (rest env.check_contract_version)
        (each (λ tx. tx-Reach env block tx tx.action) block.transactions))
      (writes (Write.block_created n block.hash block.parent_hash))

-- The world that a run of the parser leaves.
abbrev pub left : Result Done × ℕ × World → World
left (r, n, w) = w

with_block-Reach :
    (b : Option Block) (k : Block → Parse) (n : ℕ) (w : World)
    → ((block : Block) → Reach w.db (left (k block n w)).db)
    → Reach w.db (left (with_block b k n w)).db
with_block-Reach none k n w keep = Reach.stay w.db
with_block-Reach (some block) k n w keep = keep block

stepped-Reach :
    (k : Parse) (n : ℕ) (db : Db) (p : Result Done × World)
    → Reach db p.1.db
    → ((m : ℕ) (w : World) → Reach w.db (left (k m w)).db)
    → Reach db (left (stepped k n p)).db
stepped-Reach k n db (ok _, w) r keep = Reach-Preorder.join db w.db _ r (keep (u64 (n + 1)) w)
stepped-Reach k n db (err e, w) r keep = r

clean_up-Reach : (n : ℕ) (w : World) → Reach w.db (left (clean_up n w)).db
unfolding perform
clean_up-Reach n w = (writes (Write.block_deleted (u64_sub n 20))).kept w

forked-Reach :
    (env : Env) (block : Block) (n : ℕ) (db : Db) (p : Result Bool × World)
    → Reach db p.1.db
    → Reach db (left (fork_checked env block n p)).db
forked-Reach env block n db (err e, w) r = r
forked-Reach env block n db (ok true, w) r = r
forked-Reach env block n db (ok false, w) r =
    stepped-Reach clean_up n db (record_block env block n w)
      (Reach-Preorder.join db w.db _ r ((record-Reach env block n).kept w)) clean_up-Reach

check_fork-Reach : (n : ℕ) (h : Name) → Keeps Reach (check_fork n h)
unfolding check_fork find_block_info_by_block_number
check_fork-Reach n h = next (reads _) (λ b. rest (ok _))

sub-Reach : (env : Env) (n : ℕ) (w : World) → Reach w.db (left (parser_sub_mode env n w)).db
unfolding parser_sub_mode
sub-Reach env n w = with_block-Reach (env.get_block_by_number n) _ n w (λ block.
    forked-Reach env block n w.db (check_fork n block.parent_hash w)
      ((check_fork-Reach n block.parent_hash).kept w))

rounds-Reach :
    (env : Env) (rounds n : ℕ) (w : World) → Reach w.db (left (parser_rounds env rounds n w)).db
unfolding parser_rounds
rounds-Reach env zero n w = clean_up-Reach n w
rounds-Reach env (suc rounds) n w = with_block-Reach (env.get_block_by_number n) _ n w (λ block.
    stepped-Reach (parser_rounds env rounds) n w.db (record_block env block n w)
      ((record-Reach env block n).kept w) (rounds-Reach env rounds))

mode-Reach :
    (env : Env) (c : ℕ) (m : Mode) (n : ℕ) (w : World) → Reach w.db (left (by_mode env c m n w)).db
unfolding parser_concurrency_mode
mode-Reach env c concurrency n w = rounds-Reach env c n w
mode-Reach env c sub n w = sub-Reach env n w
mode-Reach env c idle n w = Reach.stay w.db

pub turn-Reach :
    (env : Env) (concurrency_num confirm_num latest n : ℕ) (w : World)
    → Reach w.db (left (run_turn env concurrency_num confirm_num latest n w)).db
unfolding run_turn
turn-Reach env c f latest n w = mode-Reach env c (choose_mode c f n latest) n w
