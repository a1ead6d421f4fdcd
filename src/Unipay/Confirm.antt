-- ===== src/Unipay/Confirm.antt =====
-- unipay/confirm_status.go and http_server/handle/unipay_notice.go: payments and refunds that unipay
-- reports, by its answer to a poll or by its own call.
use das_register.Prelude.{
  ℕ, Bool, true, false, Option, none, some, List, [], ◌∷◌, not, ◌&&◌, filter, map, nat_coded, ◌==◌,
  if◌then◌else◌,
}
use das_register.Tables.Names.{Name, ChainType}
use das_register.Tables.Order.{Order, TxStatus}
use das_register.Tables.Pay.{
  PayInfo, OrderTxStatus, UniPayRefundStatus, PayHashStatus, refund_status_coded,
  pay_hash_status_coded,
}
use das_register.Dao.Store.{Done, Exec, Result, pure, ◌>>=◌, ◌>>◌, log_error, when, for_each}
use das_register.Dao.Payments.{
  update_payment, update_uni_pay_refund_status_to_refunded,
  update_pay_hash_status_to_fail_by_dispute,
}
use das_register.Dao.Queries.{
  get_order_by_order_id, get_pay_hash_status_pending_list, get_refund_status_refunding_list,
  last_of,
}

-- `algorithmId.ToChainType()` of das-lib is a parameter, and the clock too (in milliseconds).
pub record Clock : Type 0 where
  pub now : ℕ
  pub to_chain_type : ℕ → ChainType

-- A payment that unipay reports (`PaymentInfo`).
pub record PaymentInfo : Type 0 where
  pub order_id : Name
  pub pay_hash : Name
  pub pay_address : Name
  pub algorithm_id : ℕ
  pub pay_hash_status : PayHashStatus
  pub refund_status : UniPayRefundStatus
  pub refund_hash : Name

-- The account of an order that is not found is the empty string of a zero value.
abbrev account_id_of : Option Order → Name
account_id_of none = 0
account_id_of (some o) = o.account_id

abbrev confirmed_payment : Clock → Name → Name → Name → ℕ → Name → PayInfo
confirmed_payment clock order_id pay_hash pay_address algorithm_id account_id = record {
  id = 0;
  hash = pay_hash;
  order_id = order_id;
  chain_type = clock.to_chain_type algorithm_id;
  address = pay_address;
  status = OrderTxStatus.confirm;
  timestamp = clock.now;
  account_id = account_id;
  refund_status = TxStatus.default;
  uni_pay_refund_status = UniPayRefundStatus.default;
  refund_hash = 0;
}

unfoldable pub do_payment_confirm : Clock → Name → Name → Name → ℕ → Exec Done
do_payment_confirm clock order_id pay_hash pay_address algorithm_id = do
  order_info ← get_order_by_order_id order_id
  update_payment (
      confirmed_payment clock order_id pay_hash pay_address algorithm_id (account_id_of order_info))

-- The two maps of `doConfirmStatus`: the payments of an order, in the order of the answer, and the
-- last payment of a hash.
abbrev pub payments_of : Name → List PaymentInfo → List PaymentInfo
payments_of order_id list = filter (λ v. v.order_id == order_id) list

abbrev pub payment_at : Name → List PaymentInfo → Option PaymentInfo
payment_at pay_hash list = last_of none (filter (λ v. v.pay_hash == pay_hash) list)

-- An error of `DoPaymentConfirm` is logged, and the loop goes on.
abbrev pub confirm_reported : Clock → PaymentInfo → Exec Done
confirm_reported clock v =
    when (v.pay_hash_status == PayHashStatus.confirmed)
      (log_error (do_payment_confirm clock v.order_id v.pay_hash v.pay_address v.algorithm_id))

abbrev confirm_pending : Clock → List PaymentInfo → PayInfo → Exec Done
confirm_pending clock list pending =
    for_each (confirm_reported clock) (payments_of pending.order_id list)

abbrev pub confirm_refund : Option PaymentInfo → Exec Done
confirm_refund none = pure tt
confirm_refund (some v) =
    when (v.refund_status == UniPayRefundStatus.refunded)
      (log_error (update_uni_pay_refund_status_to_refunded v.pay_hash v.order_id v.refund_hash))

-- unipay's answer to the two lists is a parameter.
abbrev pub Poll : Type 0
Poll = List Name → List Name → Result (List PaymentInfo)

abbrev answered : Result (List PaymentInfo) → Exec (List PaymentInfo)
answered r w = (r, w)

abbrev is_empty {ℓ} : {A : Type ℓ} → List A → Bool
is_empty [] = true
is_empty (x ∷ xs) = false

abbrev pub confirm_all : Clock → List PayInfo → List PayInfo → List PaymentInfo → Exec Done
confirm_all clock pending_list refunding_list list = do
  for_each (confirm_pending clock list) pending_list
  for_each (λ v. confirm_refund (payment_at v.hash list)) refunding_list

unfoldable pub do_confirm_status : Clock → Poll → Exec Done
unfolding do_payment_confirm for_each
do_confirm_status clock get_payment_info = do
  pending_list ← get_pay_hash_status_pending_list clock.now
  refunding_list ← get_refund_status_refunding_list clock.now
  if is_empty pending_list && is_empty refunding_list then pure tt else do
    list ←
        answered
          (get_payment_info (map (λ v. v.order_id) pending_list) (map (λ v. v.hash) refunding_list))
    confirm_all clock pending_list refunding_list list

-- `EventInfo`; `unnamed` is an event type that the handler does not know.
pub data EventType : Type 0 where
  order_pay order_refund payment_dispute unnamed : EventType

pub record EventInfo : Type 0 where
  pub event_type : EventType
  pub order_id : Name
  pub pay_hash : Name
  pub pay_address : Name
  pub algorithm_id : ℕ
  pub refund_hash : Name

abbrev pub handle_event : Clock → EventType → EventInfo → Exec Done
handle_event clock EventType.order_pay v =
    do_payment_confirm clock v.order_id v.pay_hash v.pay_address v.algorithm_id
handle_event clock EventType.order_refund v =
    update_uni_pay_refund_status_to_refunded v.pay_hash v.order_id v.refund_hash
handle_event clock EventType.payment_dispute v =
    update_pay_hash_status_to_fail_by_dispute v.pay_hash v.order_id
handle_event clock EventType.unnamed v = pure tt

pub data ApiCode : Type 0 where
  success params_invalid : ApiCode

-- The caller must name the business id of the service (`das_register_svr`). Every error of an event
-- is logged and not returned, so the answer is then a success.
unfoldable pub do_uni_pay_notice : Clock → Name → Name → List EventInfo → Exec ApiCode
unfolding do_payment_confirm for_each
do_uni_pay_notice clock das_register_svr business_id event_list =
    if not (business_id == das_register_svr) then pure ApiCode.params_invalid else do
      for_each (λ v. log_error (handle_event clock v.event_type v)) event_list
      pure ApiCode.success
