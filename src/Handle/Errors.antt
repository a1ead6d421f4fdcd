-- ===== src/Handle/Errors.antt =====
-- The error behaviour of the handlers: a request that is not done has changed no table.
use das_register.Prelude.{◌≡◌, refl, ◌∙◌, nat_coded}
use das_register.Dao.Store.{
  World, Done, Result, ok, err, Exec, Statement, Outcome, exec-Outcome, transaction-Outcome,
}
use das_register.Dao.Orders.{create_order, create_order_with_payment, create_coupon_order}
use das_register.Dao.Payments.{create_order_pay_info}
use das_register.Handle.Reply.{ApiCode, Reply, done, rejected, Site, from_dao}
use das_register.Handle.Service.{Service}
use das_register.Handle.Requests.{Request, serve}
use das_register.Handle.Rules.{SiteOrder}
use das_register.Handle.Ends.{End, Ends, Closing}
use das_register.Handle.Closes.{serve-Ends}

abbrev pub SameDb : Site → Site → Type 0
SameDb s t = t.world.db ≡ s.world.db

abbrev Anything : Site → Site → Type 0
Anything s t = Unit

pub SameDb-SiteOrder : SiteOrder SameDb
SameDb-SiteOrder = record { join = λ a b c p q. q ∙ p; reads = λ s w e. e }

module _ (f : Statement) (code : ApiCode) (m : Exec Done)
    (does : (w : World) → Outcome f w (m w)) where
  Outcome-End :
      (s : Site) (p : Result Done × World)
      → Outcome f s.world p
      → End SameDb Anything s (from_dao code (λ _. p) s)
  unfolding from_dao
  Outcome-End s (ok a, w) o = tt
  Outcome-End s (err e, w) (same, why, quiet) = same

  outcome-Ends : Ends SameDb Anything (from_dao code m)
  unfolding from_dao
  outcome-Ends = record { ended = λ s. Outcome-End s (m s.world) (does s.world) }

errors-Closing : Closing SameDb Anything
unfolding create_order create_order_with_payment create_coupon_order create_order_pay_info
errors-Closing = record {
  order = SameDb-SiteOrder;
  lead = λ a b c p q. tt;
  both = λ s t p. tt;
  placing = λ s ids. refl;
  locking = λ s codes. refl;
  unlocking = λ s t codes q. tt;
  with_payment = λ code o p. outcome-Ends _ code _ (transaction-Outcome _);
  with_order = λ code o. outcome-Ends _ code _ (exec-Outcome _);
  with_coupon = λ code now o c. outcome-Ends _ code _ (transaction-Outcome _);
  with_pay_info = λ code p. outcome-Ends _ code _ (exec-Outcome _);
}

ended_rejected :
    {A : Type 0} (s : Site) (p : Reply A × Site) (code : ApiCode)
    → End SameDb Anything s p
    → p.0 ≡ rejected code
    → p.1.world.db ≡ s.world.db
ended_rejected s (done a, t) code e r = cc r
ended_rejected s (rejected c, t) code e r = e

-- Whatever the services around answer and whatever statement fails: a request that is answered with an
-- error code has left every table of the database as it was.
pub serve-unchanged :
    (v : Service) (req : Request) (s : Site) (code : ApiCode)
    → (serve v req s).0 ≡ rejected code
    → (serve v req s).1.world.db ≡ s.world.db
serve-unchanged v req s code =
    ended_rejected s _ code ((serve-Ends SameDb Anything errors-Closing v req).ended s)
