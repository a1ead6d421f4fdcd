-- ===== src/Unipay/Refund.antt =====
-- unipay/refund.go, unipay/hedge.go and unipay/register_info.go.
use das_register.Prelude.{
  ℕ, Bool, true, false, Option, none, some, List, [], ◌∷◌, not, ltb, filter, map, nat_coded, ◌==◌,
  if◌then◌else◌,
}
use das_register.Tables.Names.{
  Name, das_action_coded, PayTokenId, ckb_das, ckb_ckb, ckb_internal, coupon, stripe_usd, did_point,
  padge_internal, ckb_ccc,
}
use das_register.Tables.Order.{
  Order, IsUniPay, uni_pay_false, uni_pay_coded, TxStatus, RegisterStatus, order_type_coded,
  order_status_coded, register_status_coded,
}
use das_register.Tables.Pay.{PayInfo}
use das_register.Dao.Store.{
  Done, Exec, Error, pure, raise, ◌>>=◌, ◌>>◌, when, for_each, call, refund, hedge,
}
use das_register.Dao.Orders.{update_hedge_status}
use das_register.Dao.Payments.{
  update_uni_pay_refund_status_to_default_for_not_uni_pay_order, update_refund_status_to_refund_ing,
}
use das_register.Dao.Queries.{
  get_un_refund_list, get_is_uni_pay_info_by_order_ids, get_need_hedge_order_list, last_of,
}
use das_register.Unipay.Token.{TokenPriceInfo, get_token_info}

-- `isUniPayMap[v.OrderId]`: the zero value `IsUniPayFalse` where the order is not found.
abbrev uni_pay_of : Option Order → IsUniPay
uni_pay_of none = uni_pay_false
uni_pay_of (some o) = o.is_uni_pay

abbrev pub is_uni_pay_order : List Order → PayInfo → IsUniPay
is_uni_pay_order orders v =
    uni_pay_of (last_of none (filter (λ o. o.order_id == v.order_id) orders))

-- The payments of orders that were not made through unipay are taken back to the default status.
abbrev pub reset_not_uni_pay : List Order → PayInfo → Exec Done
reset_not_uni_pay orders v =
    when (is_uni_pay_order orders v == uni_pay_false)
      (update_uni_pay_refund_status_to_default_for_not_uni_pay_order v.hash v.order_id)

abbrev pub refund_entry : PayInfo → Name × Name
refund_entry v = (v.order_id, v.hash)

-- `refund_switch` is `Cfg.Server.UniPayRefundSwitch`, `now` in milliseconds, and `accepted` whether
-- unipay's answer to the request is no error. The request names every payment of the list.
abbrev pub send_refund : Bool → List PayInfo → Exec Done
send_refund accepted [] = pure tt
send_refund accepted (p ∷ ps) = do
  call (refund (map refund_entry (p ∷ ps)))
  if accepted
      then update_refund_status_to_refund_ing (map (λ v. v.id) (p ∷ ps))
      else raise Error.send_failed

unfoldable pub do_refund : Bool → ℕ → Bool → Exec Done
unfolding for_each
do_refund refund_switch now accepted = if not refund_switch then pure tt else do
  list ← get_un_refund_list now
  orders ← get_is_uni_pay_info_by_order_ids (map (λ v. v.order_id) list)
  for_each (reset_not_uni_pay orders) list
  send_refund accepted list

-- The tokens of the `switch`: they are marked as hedged, and nothing is sent.
abbrev pub is_not_hedged : PayTokenId → Bool
is_not_hedged coupon = true
is_not_hedged ckb_ckb = true
is_not_hedged padge_internal = true
is_not_hedged ckb_internal = true
is_not_hedged ckb_das = true
is_not_hedged stripe_usd = true
is_not_hedged did_point = true
is_not_hedged ckb_ccc = true
is_not_hedged _ = false

abbrev pub has_price : Option TokenPriceInfo → Bool
has_price none = false
has_price (some t) = ltb 0 t.price

-- The order is marked before `doHedge` makes the request, whose error is only logged. The amount in
-- the request, a decimal quotient, is left out.
abbrev pub hedge_order : List TokenPriceInfo → Order → Exec Done
hedge_order map_token v =
    if is_not_hedged v.pay_token_id
    then update_hedge_status v.order_id TxStatus.sending TxStatus.ok
    else if not (has_price (get_token_info map_token v.pay_token_id))
    then raise Error.not_found
    else do update_hedge_status v.order_id TxStatus.sending TxStatus.ok; call (hedge v.order_id)

unfoldable pub do_order_hedge : List TokenPriceInfo → Exec Done
unfolding for_each get_token_info
do_order_hedge map_token = do
  list ← get_need_hedge_order_list
  for_each (hedge_order map_token) list

-- `GetRegisterStatusCount` gives one row for each status between `ConfirmPayment` and `Registered`
-- that has an order, in no particular order.
pub record RegisterStatusCount : Type 0 where
  pub register_status : RegisterStatus
  pub count_num : ℕ

-- `applyNum`, `preNum`, `proNum` and `confirmNum`
pub record RegisterNums : Type 0 where
  pub apply_num : ℕ
  pub pre_num : ℕ
  pub pro_num : ℕ
  pub confirm_num : ℕ

abbrev pub count_row : RegisterStatus → ℕ → RegisterNums → RegisterNums
count_row RegisterStatus.apply_register n r = record r { apply_num = n }
count_row RegisterStatus.pre_register n r = record r { pre_num = n }
count_row RegisterStatus.proposal n r = record r { pre_num = n }
count_row RegisterStatus.confirm_proposal n r = record r { confirm_num = n }
count_row _ n r = r

abbrev pub count_rows : RegisterNums → List RegisterStatusCount → RegisterNums
count_rows r [] = r
count_rows r (v ∷ vs) = count_rows (count_row v.register_status v.count_num r) vs

-- The loop of `doRegisterInfo`, from four zeros.
unfoldable pub register_nums : List RegisterStatusCount → RegisterNums
register_nums list =
    count_rows (record { apply_num = 0; pre_num = 0; pro_num = 0; confirm_num = 0 }) list
