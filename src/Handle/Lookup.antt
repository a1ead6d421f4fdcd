-- ===== src/Handle/Lookup.antt =====
-- The lookup of a gift card against the check of it in http_server/handle/order_register.go.
use das_register.Prelude.{
  ℕ, Bool, true, false, Option, none, some, ◌≡◌, ◌↔◌, sym, ap, not, nat_coded, ◌==◌, if◌then◌else◌,
}
use das_register.Tables.Names.{Name}
use das_register.Tables.Rest.{Coupon, CouponStatus}
use das_register.Dao.Others.{get_coupon_by_code}
use das_register.Handle.Reply.{
  Reply, done, rejected, Site, Handler, ◌>>=◌, ◌>>◌, from_dao, guard, reply, from_option, error500,
  coupon_invalid, coupon_used, coupon_unopen,
}
use das_register.Handle.Service.{Service, seconds}
use das_register.Handle.Coupon.{
  RespCouponInfo, coupon_info, is_outside, get_coupon_info, check_coupon,
}
use das_register.Handle.Done.{Comes}

some_iff :
    (a o : Bool) (c : Coupon) (t' t : Site) (status : CouponStatus)
    → (if not a
        then CouponStatus.used
        else if o
        then CouponStatus.expired
        else CouponStatus.available)
      ≡ status
    → t' ≡ t
    → (status ≡ CouponStatus.available) ↔ (
        (card : Coupon) × Comes
          (guard a coupon_used >> (guard (not o) coupon_unopen >> reply c))
          t'
          card
          t)
unfolding ◌>>◌ ◌>>=◌ guard reply
some_iff true true c t' t status e same = (λ h. cc (e, h), λ (card, came). cc came)
some_iff true false c t' t status e same = (λ h. (c, ap (λ x. (done c, x)) same), λ _. sym e)
some_iff false o c t' t status e same = (λ h. cc (e, h), λ (card, came). cc came)

by_answer :
    (now : ℕ) (p : Reply (Option Coupon) × Site) (s : Site) (info : RespCouponInfo) (t : Site)
    → Comes ((λ _. p) >>= λ res. reply (coupon_info now res)) s info t
    → (info.coupon_status ≡ CouponStatus.available) ↔ (
        (card : Coupon) × Comes
          ((λ _. p) >>= λ res. from_option res coupon_invalid >>= λ c.
            guard (c.order_id == 0) coupon_used
            >> (guard (not (is_outside now c)) coupon_unopen >> reply c))
          s
          card
          t)
unfolding ◌>>◌ ◌>>=◌ guard reply from_option
by_answer now (done none, t') s info t e =
    let i : coupon_info now none ≡ info = cc e in
    (λ h. cc (ap (λ x. x.coupon_status) i, h), λ (card, came). cc came)
by_answer now (done (some c), t') s info t e =
    let i : coupon_info now (some c) ≡ info = cc e in
    some_iff (c.order_id == 0) (is_outside now c) c t' t info.coupon_status
      (ap (λ x. x.coupon_status) i) (cc e)
by_answer now (rejected code, t') s info t e = cc e

given_iff :
    (now : ℕ) (b : Bool) (m : Handler (Option Coupon)) (s : Site) (info : RespCouponInfo) (t : Site)
    → Comes (guard b error500 >> (m >>= λ res. reply (coupon_info now res))) s info t
    → (info.coupon_status ≡ CouponStatus.available) ↔ (
        (card : Coupon) × Comes
          (guard b error500
            >> (m >>= λ res. from_option res coupon_invalid >>= λ c.
                guard (c.order_id == 0) coupon_used
                >> (guard (not (is_outside now c)) coupon_unopen >> reply c)))
          s
          card
          t)
unfolding ◌>>◌ ◌>>=◌ guard
given_iff now true m s info t e = by_answer now (m s) s info t e
given_iff now false m s info t e = cc e

-- Where the lookup of a card has an answer, it says that the card is available just if the check of the
-- card, which comes before an order is made with it, lets it through.
pub check_coupon-available :
    (v : Service) (code : Name) (s : Site) (info : RespCouponInfo) (t : Site)
    → get_coupon_info v code s ≡ (done info, t)
    → (info.coupon_status ≡ CouponStatus.available)
      ↔ ((card : Coupon) × (check_coupon v code s ≡ (done card, t)))
unfolding get_coupon_info check_coupon
check_coupon-available v code s info t e =
    given_iff (seconds v) (not (v.cfg.coupon_encry_salt == 0))
      (from_dao error500 (get_coupon_by_code (v.coupon_encry code v.cfg.coupon_encry_salt))) s info
      t e
