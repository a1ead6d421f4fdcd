-- ===== src/Lifecycle/Requests.antt =====
-- The handlers of http_server/handle as sequences of the writes.
use mathlib.Core.Path.{subst, sym}
use das_register.Prelude.{◌≡◌}
use das_register.Dao.Store.{Db, World, Done, Result, ok, err}
use das_register.Handle.Reply.{ApiCode, Reply, done, rejected, Site, from_dao}
use das_register.Handle.Service.{Service}
use das_register.Handle.Place.{no_payment}
use das_register.Handle.Rules.{SiteOrder}
use das_register.Handle.Ends.{End, Ends, Closing}
use das_register.Handle.Closes.{serve-Ends}
use das_register.Handle.Requests.{Request, serve}
use das_register.Lifecycle.Writes.{Write, perform, Reach}
use das_register.Lifecycle.Chain.{Reach-Preorder, writes}

abbrev SiteReach : Site → Site → Type 0
SiteReach s t = Reach s.world.db t.world.db

reach_same : (a b : Db) → b ≡ a → Reach a b
reach_same a b e = subst (λ x. Reach a x) (sym e) (Reach.stay a)

SiteReach-SiteOrder : SiteOrder SiteReach
SiteReach-SiteOrder = record {
  join = λ a b c p q. Reach-Preorder.join a.world.db b.world.db c.world.db p q;
  reads = λ s w e. reach_same s.world.db w.db e;
}

reach_End :
    (code : ApiCode) (s : Site) (p : Result Done × World)
    → Reach s.world.db p.1.db
    → End SiteReach SiteReach s (from_dao code (λ _. p) s)
unfolding from_dao
reach_End code s (ok a, w) r = r
reach_End code s (err e, w) r = r

write_Ends : (x : Write) (code : ApiCode) → Ends SiteReach SiteReach (from_dao code (perform x))
unfolding from_dao
write_Ends x code = record {
  ended = λ s. reach_End code s (perform x s.world) ((writes x).kept s.world);
}

reach-Closing : Closing SiteReach SiteReach
unfolding perform
reach-Closing = record {
  order = SiteReach-SiteOrder;
  lead = λ a b c p q. Reach-Preorder.join a.world.db b.world.db c.world.db p q;
  both = λ s t p. p;
  placing = λ s ids. Reach.stay s.world.db;
  locking = λ s codes. Reach.stay s.world.db;
  unlocking = λ s t codes q. q;
  with_payment = λ code o p. write_Ends (Write.order_and_payment_created o p) code;
  with_order = λ code o. write_Ends (Write.order_created o no_payment) code;
  with_coupon = λ code now o c. write_Ends (Write.coupon_order_created now o c) code;
  with_pay_info = λ code p. write_Ends (Write.pay_info_created p) code;
}

ended_reach :
    {A : Type 0} (s : Site) (p : Reply A × Site)
    → End SiteReach SiteReach s p
    → Reach s.world.db p.1.world.db
ended_reach s (done a, t) e = e
ended_reach s (rejected c, t) e = e

pub serve-Reach :
    (v : Service) (req : Request) (s : Site) → Reach s.world.db (serve v req s).1.world.db
serve-Reach v req s = ended_reach s _ ((serve-Ends SiteReach SiteReach reach-Closing v req).ended s)
