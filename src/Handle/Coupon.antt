-- ===== src/Handle/Coupon.antt =====
-- http_server/handle/order_register.go, the gift cards: `doCheckCoupon`, `getCouponInfo`,
-- `checkCoupon` and `checkCouponType`, with the lock of cache/coupon_limit.go.
use das_register.Prelude.{
  ℕ, Bool, Option, none, some, List, ◌∷◌, filter, not, ◌&&◌, ◌||◌, leb, ltb, contains, nat_coded,
  ◌==◌, if◌then◌else◌,
}
use das_register.Tables.Names.{Name}
use das_register.Tables.Rest.{
  Coupon, CouponType, four_byte, five_byte, CouponStatus, coupon_type_coded,
}
use das_register.Dao.Store.{Done}
use das_register.Dao.Others.{get_coupon_by_code}
use das_register.Handle.Reply.{
  Site, done, rejected, Handler, reply, ◌>>=◌, ◌>>◌, from_dao, guard, from_option, error500,
  coupon_invalid, coupon_used, coupon_unopen, operation_frequent,
}
use das_register.Handle.Service.{Service, seconds}

-- `RespCouponInfo`
pub record RespCouponInfo : Type 0 where
  pub coupon_type : Option CouponType
  pub coupon_status : CouponStatus

-- `nowTime < res.StartAt.Unix() || nowTime > res.ExpiredAt.Unix()`
abbrev pub is_outside : ℕ → Coupon → Bool
is_outside now c = ltb now c.start_at || ltb c.expired_at now

abbrev pub coupon_info : ℕ → Option Coupon → RespCouponInfo
coupon_info now none = record { coupon_type = none; coupon_status = CouponStatus.not_found }
coupon_info now (some c) = record {
  coupon_type = some c.coupon_type;
  coupon_status =
      if not (c.order_id == 0)
      then CouponStatus.used
      else if is_outside now c
      then CouponStatus.expired
      else CouponStatus.available;
}

-- `getCouponInfo`, and the answer of `doCheckCoupon` to its errors.
unfoldable pub get_coupon_info : Service → Name → Handler RespCouponInfo
unfolding from_dao get_coupon_by_code
get_coupon_info v code = do
  guard (not (v.cfg.coupon_encry_salt == 0)) error500
  res ← from_dao error500 (get_coupon_by_code (v.coupon_encry code v.cfg.coupon_encry_salt))
  reply (coupon_info (seconds v) res)

-- `doCheckCoupon`
unfoldable pub do_check_coupon : Service → Name → Handler RespCouponInfo
unfolding get_coupon_info
do_check_coupon v coupon = do guard (not (coupon == 0)) coupon_invalid; get_coupon_info v coupon

-- `checkCoupon`
unfoldable pub check_coupon : Service → Name → Handler Coupon
unfolding from_dao get_coupon_by_code
check_coupon v code = do
  guard (not (v.cfg.coupon_encry_salt == 0)) error500
  res ← from_dao error500 (get_coupon_by_code (v.coupon_encry code v.cfg.coupon_encry_salt))
  coupon ← from_option res coupon_invalid
  guard (coupon.order_id == 0) coupon_used
  guard (not (is_outside (seconds v) coupon)) coupon_unopen
  reply coupon

-- `checkCouponType`, at the length of the account
unfoldable pub check_coupon_type : ℕ → Coupon → Bool
check_coupon_type length coupon =
    coupon.coupon_type == four_byte && length == 4
    || coupon.coupon_type == five_byte && leb 5 length

abbrev pub locked_unless : Bool → Name → Handler Done
locked_unless b code s =
    if b then (rejected operation_frequent, s) else (done tt, record s { locks = code ∷ s.locks })

-- `GetCouponLockWithRedis`: SETNX, which sets the key unless it is there.
-- Its expiration after ten minutes is left out.
unfoldable pub get_coupon_lock_with_redis : Service → Name → Handler Done
get_coupon_lock_with_redis v code s =
    locked_unless (v.set_nx_fails code || contains code s.locks) code s

abbrev pub release : Name → List Name → List Name
release code = filter (λ c. not (c == code))

-- `DeleteCouponLockWithRedis`, whose error is only logged
unfoldable pub delete_coupon_lock_with_redis : Service → Name → Site → Site
delete_coupon_lock_with_redis v code s =
    if v.del_fails code then s else record s { locks = release code s.locks }
