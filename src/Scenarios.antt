-- ===== src/Scenarios.antt =====
-- The theorems at concrete inputs, and runs of the jobs on the sample database.
pub mod Requests
use das_register.Prelude.{
  ◌+◌, ◌-◌, ◌==◌, nat_coded, ℕ, true, false, List, [], ◌∷◌, ◌≡◌, refl, map, arith, ltb,
  if◌then◌else◌, leb, filter, ◌==◌, nat_coded,
}
use das_register.Tables.Names.{eth_eth}
use das_register.Tables.Order.{RegisterStatus}
use das_register.Tables.Pay.{apply_register}
use das_register.Dao.Store.{transaction, World, ok, err, Error, Outcome}
use das_register.Dao.Orders.{do_action_confirm_proposal, do_action_propose, do_action_renew_account}
use das_register.Dao.Payments.{update_payment, update_rejected_tx}
use das_register.Dao.Proposals.{confirmed, do_action_confirm_proposal_lem}
use das_register.Dao.Rejections.{
  Refused, Resent, update_rejected_tx-Refused, proposal-Refused, do_action_renew_account-committed,
  ClosedOnly, first_fault,
}
use das_register.Dao.Repeats.{update_payment-update_payment}
use das_register.Unipay.Refund.{RegisterStatusCount, register_nums}
use das_register.Unipay.Token.{round_amount, round_unit}
use das_register.Unipay.Confirm.{ApiCode, do_uni_pay_notice}
use das_register.Unipay.Rounding.{IsRounding, round_amount-IsRounding}
use das_register.Unipay.Counts.{register_nums-pro_num}
use das_register.Unipay.Notices.{notice-answer}
use das_register.Timer.Checks.{check_expired}
use das_register.Timer.Expiry.{Expired, check_expired-Expired}
use das_register.BlockParser.Run.{choose_mode, sub, idle, clean_up, parser_sub_mode}
use das_register.BlockParser.Numbers.{
  choose_mode-sub, choose_mode-wrapped, clean_up-wrapped, clean_up_lem,
}
use das_register.Lifecycle.Writes.{Write, Reach, perform}
use das_register.Lifecycle.Rows.{Progress}
use das_register.Lifecycle.Progress.{reach-Progress}
use das_register.Lifecycle.Jobs.{Job, run_job, run_jobs, jobs-Progress}
use das_register.Samples.{
  payment, payment_again, apply_tx, sample_db, early_db, sample_world, faulty_world, gorm, lenient,
  clock, pay_event, chain, forked_block, env, block_100,
}
use das_register.Prelude.{All, ◌&&◌, Among, inl, ◌↔◌}
use das_register.Tables.Pay.{PayInfo}
use das_register.Tables.Names.{Name}
use das_register.Tables.Names.{DasAction}
use das_register.Tables.Order.{did_cell_no}
use das_register.Dao.Store.{send_tx}
use das_register.Dao.Rows.{upsert_tx_rows}
use das_register.Dao.Queries.{needs_send_pay}
use das_register.TxTool.Register.{do_order_apply_tx, new_order_tx}
use das_register.TxTool.Sends.{
  quiet, sent_order, do_order_apply_tx-not_listed, do_order_apply_tx-failed,
}
use das_register.Samples.{ready, ready_db, refusing_chain}
use das_register.Dao.Store.{refund}
use das_register.Unipay.Refund.{do_refund, refund_entry}
use das_register.Unipay.Refunds.{faultless, Due, do_refund-refund}
use das_register.Samples.{waiting, refund_db}
use das_register.BlockParser.Run.{run_turn}
use das_register.BlockParser.Steps.{number, MovesIn, run_turn-MovesIn}
use das_register.BlockParser.Forks.{parser_sub_mode-Forked}

abbrev jobs : List Job
jobs =
    Job.notice clock 1 1 (pay_event ∷ [])
    ∷ Job.apply_txs chain
    ∷ Job.expired 200000000
    ∷ Job.parse env 1 30 200 101
    ∷ []

jobs-Progress_example : Progress faulty_world.db (run_jobs jobs faulty_world).db
jobs-Progress_example = jobs-Progress jobs faulty_world

abbrev paid_twice :
    Reach sample_db
      (perform (Write.payment_confirmed payment) (record faulty_world {
        db = (perform (Write.payment_confirmed payment) sample_world).1.db;
      })).1.db
paid_twice =
    Reach.write sample_db
      (record faulty_world { db = (perform (Write.payment_confirmed payment) sample_world).1.db })
      (Write.payment_confirmed payment)
      (Reach.write sample_db sample_world (Write.payment_confirmed payment) (Reach.stay sample_db))

reach-Progress_example :
    Progress sample_db
      (perform (Write.payment_confirmed payment) (record faulty_world {
        db = (perform (Write.payment_confirmed payment) sample_world).1.db;
      })).1.db
reach-Progress_example = reach-Progress sample_db _ paid_twice

confirm_proposal_example :
    Outcome
      (confirmed (12 ∷ []) (12 ∷ []) (5 ∷ []) apply_tx [])
      faulty_world
      (do_action_confirm_proposal gorm (12 ∷ []) (12 ∷ []) (5 ∷ []) (apply_tx ∷ []) faulty_world)
confirm_proposal_example =
    do_action_confirm_proposal_lem gorm (12 ∷ []) (12 ∷ []) (5 ∷ []) apply_tx [] faulty_world

abbrev paid_world : World
unfolding update_payment
paid_world = (update_payment payment sample_world).1

payment_is_paid : update_payment payment sample_world ≡ (ok tt, paid_world)
unfolding update_payment transaction
payment_is_paid = refl

update_payment-update_payment_example :
    (update_payment payment_again paid_world).1.db ≡ paid_world.db
update_payment-update_payment_example =
    update_payment-update_payment payment payment_again sample_world paid_world (refl, refl) refl
      payment_is_paid

check_expired_example : Expired sample_db (check_expired 200000000 sample_world).1.db
check_expired_example = check_expired-Expired 200000000 sample_world

update_rejected_tx-Refused_example :
    Refused sample_world (update_rejected_tx gorm apply_register 12 sample_world)
update_rejected_tx-Refused_example =
    update_rejected_tx-Refused gorm apply_register 12 sample_world Resent.apply refl

proposal-Refused_example :
    Refused sample_world (do_action_propose gorm [] [] sample_world)
    × Refused sample_world (do_action_confirm_proposal gorm [] [] (5 ∷ []) [] sample_world)
proposal-Refused_example = proposal-Refused gorm [] [] (5 ∷ []) sample_world refl

round_amount_example :
    IsRounding (round_unit eth_eth) 1234567890123 (round_amount 1234567890123 eth_eth)
round_amount_example = round_amount-IsRounding 1234567890123 eth_eth

abbrev counts : List RegisterStatusCount
counts =
    record { register_status = RegisterStatus.pre_register; count_num = 3 }
    ∷ record { register_status = RegisterStatus.proposal; count_num = 8 }
    ∷ []

register_nums_example : (register_nums counts).pro_num ≡ 0
register_nums_example = register_nums-pro_num counts

notice-answer_example :
    (do_uni_pay_notice clock 1 1 (pay_event ∷ []) faulty_world).0
    ≡ ok (if ◌==◌ {A = ℕ} 1 1 then ApiCode.success else ApiCode.params_invalid)
notice-answer_example = notice-answer clock 1 1 (pay_event ∷ []) faulty_world

choose_mode-sub_example : choose_mode 1 30 101 200 ≡ (if ltb (101 + 30) 200 then sub else idle)
choose_mode-sub_example = choose_mode-sub 30 101 200 (omega arith) (omega arith)

choose_mode-wrapped_example : choose_mode 1 30 40 20 ≡ sub
choose_mode-wrapped_example = choose_mode-wrapped 30 40 20 (omega arith) (omega arith) (omega arith)

clean_up-wrapped_example :
    clean_up 4 (record { db = early_db; faults = []; sent = [] })
    ≡ (ok tt, 4, record { db = record early_db { blocks = [] }; faults = []; sent = [] })
clean_up-wrapped_example = clean_up-wrapped 4 early_db [] (omega arith) (omega arith, tt)

clean_up_example : clean_up 101 (record { db = sample_db; faults = []; sent = [] }) ≡ (
  ok tt,
  101,
  record {
    db = record sample_db { blocks = filter (λ b. leb 101 (b.block_number + 20)) sample_db.blocks };
    faults = [];
    sent = [];
  },
)
clean_up_example = clean_up_lem 101 sample_db [] (omega arith) (omega arith)

apply_tx-not_listed_example :
    All
      (λ o. o.order_id == 11 && needs_send_pay DasAction.apply_register did_cell_no o ≡ false)
      (do_order_apply_tx chain ready (quiet ready_db [])).1.db.orders
apply_tx-not_listed_example =
    do_order_apply_tx-not_listed chain ready 31 ready_db [] refl refl refl refl

apply_tx-failed_example :
    do_order_apply_tx refusing_chain ready (quiet ready_db [])
    ≡ (err Error.send_failed, quiet ready_db (send_tx apply_register 11 ∷ []))
apply_tx-failed_example =
    do_order_apply_tx-failed refusing_chain ready ready_db [] refl refl refl (inl refl) (refl, tt)

do_refund-refund_example :
    (entries : List (Name × Name)) × ((do_refund true 200000000 true
        (faultless refund_db [])).1.sent
      ≡ refund entries ∷ [])
    × ((e : Name × Name)
        → Among e entries
          ↔ ((p : PayInfo) × Among p refund_db.pays × Due 200000000 p × (e ≡ (p.order_id, p.hash))))
do_refund-refund_example =
    do_refund-refund 200000000 true refund_db [] waiting (inl refl) (ground arith, refl, refl)

renew-committed_example : ClosedOnly 11 sample_db (
    do_action_renew_account 11 33 (record { db = sample_db; faults = first_fault 4 []; sent = [] }))
renew-committed_example =
    do_action_renew_account-committed 4 sample_db [] [] 11 33 (omega arith) (omega arith)

run_turn-MovesIn_example :
    MovesIn (choose_mode 1 30 101 200) 1 101 (number (run_turn env 1 30 200 101 faulty_world))
run_turn-MovesIn_example = run_turn-MovesIn env 1 30 200 101 faulty_world (omega arith)

parser_sub_mode-Forked_example : parser_sub_mode env 101 sample_world ≡ (ok tt, 100, sample_world)
parser_sub_mode-Forked_example =
    (parser_sub_mode-Forked env 101 sample_world (omega arith) (omega arith)).1
      (forked_block, block_100, refl, refl, refl, refl)
