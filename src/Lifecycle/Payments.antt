-- ===== src/Lifecycle/Payments.antt =====
-- The jobs of unipay/ and the notices of the payment service as sequences of the writes.
use das_register.Prelude.{Bool, Option, none, some, List, [], ◌∷◌, ℕ, nat_coded}
use das_register.Tables.Names.{Name, das_action_coded}
use das_register.Tables.Order.{uni_pay_coded}
use das_register.Tables.Pay.{PayInfo, refund_status_coded, pay_hash_status_coded}
use das_register.Dao.Store.{ok}
use das_register.Dao.Keeps.{Keeps, call-Keeps}
use das_register.Dao.Queries.{
  get_order_by_order_id, get_pay_hash_status_pending_list, get_refund_status_refunding_list,
  get_un_refund_list, get_is_uni_pay_info_by_order_ids, get_need_hedge_order_list,
}
use das_register.Unipay.Confirm.{
  confirm_refund, handle_event, Clock, do_confirm_status, do_payment_confirm, do_uni_pay_notice,
  EventInfo, EventType, PaymentInfo,
}
use das_register.Unipay.Refund.{send_refund, do_refund, do_order_hedge}
use das_register.Unipay.Token.{TokenPriceInfo}
use das_register.Prelude.{not, ◌==◌, nat_coded}
use das_register.Tables.Order.{Order}
use das_register.Dao.Store.{err, Error, hedge}
use das_register.Unipay.Confirm.{ApiCode, confirm_reported}
use das_register.Unipay.Refund.{hedge_order, is_not_hedged, has_price}
use das_register.Unipay.Token.{get_token_info}
use das_register.Unipay.Confirm.{confirm_all, payments_of, payment_at, Poll}
use das_register.Lifecycle.Writes.{Write, perform, Reach}
use das_register.Lifecycle.Chain.{
  Reach-Preorder, writes, reads, next, also, each, rest, either, logged, guarded,
}

pub payment_confirm-Reach :
    (clock : Clock) (order_id pay_hash pay_address : Name) (algorithm_id : ℕ)
    → Keeps Reach (do_payment_confirm clock order_id pay_hash pay_address algorithm_id)
unfolding do_payment_confirm get_order_by_order_id perform
payment_confirm-Reach clock order_id pay_hash pay_address algorithm_id =
    next (reads _) (λ order. writes (Write.payment_confirmed _))

confirm_refund-Reach : (v : Option PaymentInfo) → Keeps Reach (confirm_refund v)
unfolding perform
confirm_refund-Reach none = rest (ok tt)
confirm_refund-Reach (some v) =
    guarded _ (logged (writes (Write.refunded v.pay_hash v.order_id v.refund_hash)))

reported-Reach : (clock : Clock) (p : PaymentInfo) → Keeps Reach (confirm_reported clock p)
reported-Reach clock p =
    guarded _
      (logged (payment_confirm-Reach clock p.order_id p.pay_hash p.pay_address p.algorithm_id))

confirm_all-Reach :
    (clock : Clock) (pending refunding : List PayInfo) (list : List PaymentInfo)
    → Keeps Reach (confirm_all clock pending refunding list)
confirm_all-Reach clock pending refunding list =
    also (each (λ v. each (λ p. reported-Reach clock p) (payments_of v.order_id list)) pending)
      (each (λ v. confirm_refund-Reach (payment_at v.hash list)) refunding)

pub confirm_status-Reach :
    (clock : Clock) (poll : Poll) → Keeps Reach (do_confirm_status clock poll)
unfolding do_confirm_status get_pay_hash_status_pending_list get_refund_status_refunding_list
confirm_status-Reach clock poll = next (reads _) (λ pending. next (reads _) (λ refunding.
    either _ (rest (ok tt))
      (next (rest (poll _ _)) (λ list. confirm_all-Reach clock pending refunding list))))

handle_event-Reach :
    (clock : Clock) (t : EventType) (v : EventInfo) → Keeps Reach (handle_event clock t v)
unfolding perform
handle_event-Reach clock EventType.order_pay v =
    payment_confirm-Reach clock v.order_id v.pay_hash v.pay_address v.algorithm_id
handle_event-Reach clock EventType.order_refund v =
    writes (Write.refunded v.pay_hash v.order_id v.refund_hash)
handle_event-Reach clock EventType.payment_dispute v = writes (Write.disputed v.pay_hash v.order_id)
handle_event-Reach clock EventType.unnamed v = rest (ok tt)

pub notice-Reach :
    (clock : Clock) (svr business_id : Name) (list : List EventInfo)
    → Keeps Reach (do_uni_pay_notice clock svr business_id list)
unfolding do_uni_pay_notice
notice-Reach clock svr business_id list =
    either (not (business_id == svr)) (rest (ok ApiCode.params_invalid)) (
      also (each (λ v. logged (handle_event-Reach clock v.event_type v)) list)
        (rest (ok ApiCode.success)))

send_refund-Reach : (b : Bool) (list : List PayInfo) → Keeps Reach (send_refund b list)
unfolding perform
send_refund-Reach b [] = rest (ok tt)
send_refund-Reach b (p ∷ ps) =
    also (call-Keeps Reach Reach-Preorder _) (either b (writes (Write.refund_ing _)) (rest _))

by_ids-Reach : (ids : List Name) → Keeps Reach (get_is_uni_pay_info_by_order_ids ids)
unfolding get_is_uni_pay_info_by_order_ids
by_ids-Reach [] = rest _
by_ids-Reach (i ∷ ids) = reads _

pub refund-Reach : (switch : Bool) (now : ℕ) (b : Bool) → Keeps Reach (do_refund switch now b)
unfolding do_refund get_un_refund_list perform
refund-Reach switch now b = either _ (rest (ok tt)) (
    next (reads _) (λ list. next (by_ids-Reach _) (λ orders.
      also (each (λ v. guarded _ (writes (Write.refund_reset v.hash v.order_id))) list)
        (send_refund-Reach b list))))

hedge_order-Reach : (tokens : List TokenPriceInfo) (v : Order) → Keeps Reach (hedge_order tokens v)
unfolding perform
hedge_order-Reach tokens v =
    either (is_not_hedged v.pay_token_id) (writes (Write.hedged v.order_id)) (
      either (not (has_price (get_token_info tokens v.pay_token_id))) (rest (err Error.not_found)) (
        also (writes (Write.hedged v.order_id))
          (call-Keeps Reach Reach-Preorder (hedge v.order_id))))

pub hedge-Reach : (tokens : List TokenPriceInfo) → Keeps Reach (do_order_hedge tokens)
unfolding do_order_hedge get_need_hedge_order_list
hedge-Reach tokens = next (reads _) (λ list. each (λ v. hedge_order-Reach tokens v) list)
