-- ===== src/Lifecycle/Jobs.antt =====
-- All jobs of the service, in any order, each with any parameters and any faults.
use das_register.Prelude.{ℕ, Bool, List, [], ◌∷◌}
use das_register.Tables.Names.{Name}
use das_register.Dao.Store.{World, Exec}
use das_register.Dao.Rows.{Driver}
use das_register.Timer.Checks.{
  check_expired, do_check_closed_and_un_refund, do_reset_coupon, do_tx_rejected, check_pending,
  check_rejected, Client, TransactionInfo,
}
use das_register.Unipay.Confirm.{Clock, Poll, EventInfo, do_confirm_status, do_uni_pay_notice}
use das_register.Unipay.Refund.{do_refund, do_order_hedge}
use das_register.Unipay.Token.{TokenPriceInfo}
use das_register.TxTool.Register.{
  Chain, do_order_apply_txs, do_order_pre_register_txs, do_order_renew_txs, do_did_cell_tx,
}
use das_register.BlockParser.Tx.{Env}
use das_register.BlockParser.Run.{run_turn}
use das_register.Handle.Service.{Service}
use das_register.Handle.Requests.{Request, serve}
use das_register.Lifecycle.Requests.{serve-Reach}
use das_register.Lifecycle.Writes.{Write, perform, Reach}
use das_register.Lifecycle.Rows.{Progress}
use das_register.Lifecycle.Progress.{reach-Progress}
use das_register.Lifecycle.Chain.{Reach-Preorder, writes}
use das_register.Lifecycle.Timers.{
  expired-Reach, un_refund-Reach, coupon-Reach, rejected-Reach, pending-Reach, check_rejected-Reach,
}
use das_register.Lifecycle.Payments.{confirm_status-Reach, notice-Reach, refund-Reach, hedge-Reach}
use das_register.Lifecycle.Sending.{apply-Reach, pre_register-Reach, renew-Reach, did_cell-Reach}
use das_register.Lifecycle.Parsing.{left, turn-Reach}

-- A tick of a job, with what it reads of the world outside of the database. `request` is
-- one of the http service, with the locks and the orders at unipay that it finds; `api` is a write of
-- a handler that is not modelled.
pub data Job : Type 1 where
  expired : ℕ → Job
  closed_and_un_refund reset_coupon : Job
  tx_rejected : Driver → Client → ℕ → Job
  pending : (List Name → List TransactionInfo) → ℕ → Job
  rejected : Bool → Client → ℕ → Job
  confirm_status : Clock → Poll → Job
  notice : Clock → Name → Name → List EventInfo → Job
  refund : Bool → ℕ → Bool → Job
  order_hedge : List TokenPriceInfo → Job
  apply_txs pre_register_txs renew_txs did_cell_txs : Chain → Job
  parse : Env → ℕ → ℕ → ℕ → ℕ → Job
  request : Service → Request → List Name → List Name → Job
  api : Write → Job

abbrev after : {A : Type 0} → Exec A → World → World
after m w = (m w).1

unfoldable pub run_job : Job → World → World
run_job (Job.expired now) = after (check_expired now)
run_job Job.closed_and_un_refund = after do_check_closed_and_un_refund
run_job Job.reset_coupon = after do_reset_coupon
run_job (Job.tx_rejected d client now) = after (do_tx_rejected d client now)
run_job (Job.pending txs limit) = after (check_pending txs limit)
run_job (Job.rejected synced client now) = after (check_rejected synced client now)
run_job (Job.confirm_status clock poll) = after (do_confirm_status clock poll)
run_job (Job.notice clock svr business_id list) =
    after (do_uni_pay_notice clock svr business_id list)
run_job (Job.refund switch now accepted) = after (do_refund switch now accepted)
run_job (Job.order_hedge tokens) = after (do_order_hedge tokens)
run_job (Job.apply_txs chain) = after (do_order_apply_txs chain)
run_job (Job.pre_register_txs chain) = after (do_order_pre_register_txs chain)
run_job (Job.renew_txs chain) = after (do_order_renew_txs chain)
run_job (Job.did_cell_txs chain) = after (do_did_cell_tx chain)
run_job (Job.parse env concurrency_num confirm_num latest n) =
    λ w. left (run_turn env concurrency_num confirm_num latest n w)
run_job (Job.request v req locks placed) =
    λ w. (serve v req (record { world = w; locks = locks; placed = placed })).1.world
run_job (Job.api x) = after (perform x)

unfoldable pub run_jobs : List Job → World → World
unfolding run_job
run_jobs [] w = w
run_jobs (j ∷ js) w = run_jobs js (run_job j w)

-- Whatever a job reads and whatever fails, it changes the database by the writes of dao/ only.
pub job-Reach : (j : Job) (w : World) → Reach w.db (run_job j w).db
unfolding run_job
job-Reach (Job.expired now) w = (expired-Reach now).kept w
job-Reach Job.closed_and_un_refund w = un_refund-Reach.kept w
job-Reach Job.reset_coupon w = coupon-Reach.kept w
job-Reach (Job.tx_rejected d client now) w = (rejected-Reach d client now).kept w
job-Reach (Job.pending txs limit) w = (pending-Reach txs limit).kept w
job-Reach (Job.rejected synced client now) w = (check_rejected-Reach synced client now).kept w
job-Reach (Job.confirm_status clock poll) w = (confirm_status-Reach clock poll).kept w
job-Reach (Job.notice clock svr business_id list) w =
    (notice-Reach clock svr business_id list).kept w
job-Reach (Job.refund switch now accepted) w = (refund-Reach switch now accepted).kept w
job-Reach (Job.order_hedge tokens) w = (hedge-Reach tokens).kept w
job-Reach (Job.apply_txs chain) w = (apply-Reach chain).kept w
job-Reach (Job.pre_register_txs chain) w = (pre_register-Reach chain).kept w
job-Reach (Job.renew_txs chain) w = (renew-Reach chain).kept w
job-Reach (Job.did_cell_txs chain) w = (did_cell-Reach chain).kept w
job-Reach (Job.parse env concurrency_num confirm_num latest n) w =
    turn-Reach env concurrency_num confirm_num latest n w
job-Reach (Job.request v req locks placed) w =
    serve-Reach v req (record { world = w; locks = locks; placed = placed })
job-Reach (Job.api x) w = (writes x).kept w

pub jobs-Reach : (js : List Job) (w : World) → Reach w.db (run_jobs js w).db
unfolding run_jobs
jobs-Reach [] w = Reach.stay w.db
jobs-Reach (j ∷ js) w =
    Reach-Preorder.join w.db (run_job j w).db (run_jobs js (run_job j w)).db (job-Reach j w)
      (jobs-Reach js (run_job j w))

-- Over any jobs of the service in any order, with any faults, every order and every payment keeps
-- its row, its id, its order's id, whose it is and its hash; an order that is closed stays closed,
-- one that is paid stays paid, a payment that is settled stays settled, and one that is marked for a
-- refund stays marked; and if no two orders had one order's id, and no two payments one hash, then
-- none have.
pub jobs-Progress : (js : List Job) (w : World) → Progress w.db (run_jobs js w).db
jobs-Progress js w = reach-Progress w.db (run_jobs js w).db (jobs-Reach js w)
