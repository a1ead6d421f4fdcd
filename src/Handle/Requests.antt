-- ===== src/Handle/Requests.antt =====
-- The routes of http_server/router.go to the handlers that are modelled. That to `OrderRenew` is
-- commented out there, so `do_order_renew` is not among them.
use das_register.Tables.Names.{Name}
use das_register.Dao.Store.{Done}
use das_register.Handle.Reply.{Handler, ◌>>◌, reply}
use das_register.Handle.Service.{Service}
use das_register.Handle.Coupon.{do_check_coupon}
use das_register.Handle.Search.{ReqAccountSearch}
use das_register.Handle.Register.{ReqOrderRegister, do_order_register}
use das_register.Handle.InternalOrder.{
  ReqAccountRegister, do_account_register, ReqAccountRenew, do_account_renew,
}
use das_register.Handle.Change.{ReqOrderChange, do_order_change, ReqOrderPayHash, do_order_pay_hash}
use das_register.Handle.Account.{do_account_search}

pub data Request : Type 0 where
  account_search : ReqAccountSearch → Request
  check_coupon : Name → Request
  order_register : ReqOrderRegister → Request
  order_change : ReqOrderChange → Request
  order_pay_hash : ReqOrderPayHash → Request
  account_register : ReqAccountRegister → Request
  account_renew : ReqAccountRenew → Request

-- The handler of a request, without the data of its answer.
unfoldable pub serve : Service → Request → Handler Done
unfolding do_account_search do_check_coupon do_order_register do_order_change do_order_pay_hash
    do_account_register do_account_renew
serve v (Request.account_search req) = do_account_search v req >> reply tt
serve v (Request.check_coupon coupon) = do_check_coupon v coupon >> reply tt
serve v (Request.order_register req) = do_order_register v req >> reply tt
serve v (Request.order_change req) = do_order_change v req >> reply tt
serve v (Request.order_pay_hash req) = do_order_pay_hash v req >> reply tt
serve v (Request.account_register req) = do_account_register v req >> reply tt
serve v (Request.account_renew req) = do_account_renew v req >> reply tt
