-- ===== src/Handle/Ends.antt =====
-- The handlers that write: each reads, and stores at most once, at its end. So what holds of a site
-- after reads, and after the one store, holds after a whole handler.
use das_register.Prelude.{ℕ, Bool, true, false, Option, none, some, List, nat_coded, ◌∷◌}
use das_register.Tables.Names.{Name, ChainType, PayTokenId, pay_token_coded}
use das_register.Tables.Order.{Order}
use das_register.Tables.Pay.{PayInfo}
use das_register.Dao.Orders.{create_order, create_order_with_payment, create_coupon_order}
use das_register.Dao.Payments.{create_order_pay_info}
use das_register.Handle.Reply.{
  ApiCode, Reply, done, rejected, Site, Handler, ◌>>=◌, ◌>>◌, reply, branch, from_option, from_dao,
  guard,
}
use das_register.Handle.Service.{Service, UnipayOrder}
use das_register.Handle.Amounts.{Payable, add_premium}
use das_register.Handle.Place.{
  check_balance, Draft, store_order, own_order, unipay_order, payment_of, no_payment, placed_at,
  create_at_unipay, place_at_unipay, place_order,
}
use das_register.Handle.Rules.{
  SiteOrder, Stays, reply-Stays, guard-Stays, from_option-Stays, branch-Stays,
}
use das_register.Handle.Reads.{check_balance-Stays}

-- What holds of the sites before and after, by the reply: `Q` when it is done, `R` when it is not.
abbrev pub End : (R Q : Site → Site → Type 0) {A : Type 0} → Site → Reply A × Site → Type 0
End R Q s (done a, t) = Q s t
End R Q s (rejected code, t) = R s t

pub record Ends (R Q : Site → Site → Type 0) {A : Type 0} (m : Handler A) : Type 0 where
  pub ended : (s : Site) → End R Q s (m s)

-- `R` is kept by reads, by the locks and by orders placed at unipay, and the stores lead to `Q`.
pub record Closing (R Q : Site → Site → Type 0) : Type 0 where
  pub order : SiteOrder R
  pub lead : (a b c : Site) → R a b → Q b c → Q a c
  pub both : (s t : Site) → R s t → Q s t
  pub placing : (s : Site) (ids : List Name) → R s (record s { placed = ids })
  pub locking : (s : Site) (codes : List Name) → R s (record s { locks = codes })
  pub unlocking : (s t : Site) (codes : List Name) → Q s t → Q s (record t { locks = codes })
  pub with_payment :
      (code : ApiCode) (o : Order) (p : PayInfo)
      → Ends R Q (from_dao code (create_order_with_payment o p))
  pub with_order : (code : ApiCode) (o : Order) → Ends R Q (from_dao code (create_order o))
  pub with_coupon :
      (code : ApiCode) (now : ℕ) (o : Order) (c : Name)
      → Ends R Q (from_dao code (create_coupon_order now o c))
  pub with_pay_info :
      (code : ApiCode) (p : PayInfo) → Ends R Q (from_dao code (create_order_pay_info p))

module _ (R Q : Site → Site → Type 0) (closing : Closing R Q) where
  order : SiteOrder R
  order = closing.order

  bound-End :
      {A B : Type 0} (f : A → Handler B)
      → ((a : A) → Ends R Q (f a))
      → (s : Site) (p : Reply A × Site) → R s p.1
      → End R Q s (◌>>=◌ (λ _. p) f s)
  unfolding ◌>>=◌
  bound-End f keep s (done a, t) first = led (f a t) ((keep a).ended t)
    where
      led : {B : Type 0} (q : Reply B × Site) → End R Q t q → End R Q s q
      led (done b, u) e = closing.lead s t u first e
      led (rejected code, u) e = closing.order.join s t u first e
  bound-End f keep s (rejected code, t) first = first

  pub bind-Ends :
      {A B : Type 0} {m : Handler A} {f : A → Handler B}
      → Stays R m
      → ((a : A) → Ends R Q (f a))
      → Ends R Q (m >>= f)
  unfolding ◌>>=◌
  bind-Ends {m = m} {f = f} first keep = record {
    ended = λ s. bound-End f keep s (m s) (first.stayed s);
  }

  pub also-Ends :
      {A B : Type 0} {m : Handler A} {k : Handler B} → Stays R m → Ends R Q k → Ends R Q (m >> k)
  unfolding ◌>>◌
  also-Ends first keep = bind-Ends first (λ _. keep)

  pub branch-Ends :
      {A : Type 0} (b : Bool) {m k : Handler A} → Ends R Q m → Ends R Q k → Ends R Q (branch b m k)
  unfolding branch
  branch-Ends true left right = record { ended = left.ended }
  branch-Ends false left right = record { ended = right.ended }

  answered :
      {A B : Type 0} (b : B) (s : Site) (p : Reply A × Site)
      → End R Q s p
      → End R Q s (◌>>=◌ (λ _. p) (λ _. reply b) s)
  unfolding ◌>>=◌ reply
  answered b s (done a, t) e = e
  answered b s (rejected code, t) e = e

  -- A store, and then the answer.
  pub last-Ends : {A B : Type 0} {m : Handler A} (b : B) → Ends R Q m → Ends R Q (m >> reply b)
  unfolding ◌>>◌ ◌>>=◌
  last-Ends {m = m} b first = record { ended = λ s. answered b s (m s) (first.ended s) }

  pub Stays-Ends : {A : Type 0} {m : Handler A} → Stays R m → Ends R Q m
  Stays-Ends {m = m} keep = record { ended = λ s. stayed_End s (m s) (keep.stayed s) }
    where
      stayed_End : {A : Type 0} (s : Site) (p : Reply A × Site) → R s p.1 → End R Q s p
      stayed_End s (done a, t) e = closing.both s t e
      stayed_End s (rejected code, t) e = e

  asked : (b : Bool) (code : ApiCode) → Stays R (guard b code)
  asked b code = guard-Stays R order b code

  taken : {A : Type 0} (o : Option A) (code : ApiCode) → Stays R (from_option o code)
  taken o code = from_option-Stays R order o code

  module _ (v : Service) where
    store_order-Ends : (o : Order) (p : PayInfo) (a c : Name) → Ends R Q (store_order v o p a c)
    unfolding store_order
    store_order-Ends o p a c = also-Ends (asked _ _) (last-Ends _ (closing.with_payment _ o p))

    placed_at-related : (o : Option UnipayOrder) (s : Site) → R s (placed_at o s).1
    placed_at-related none s = closing.placing s s.placed
    placed_at-related (some res) s = closing.placing s (res.order_id ∷ s.placed)

    create_at_unipay-Stays :
        (token_id : PayTokenId) (amount : ℕ) → Stays R (create_at_unipay v token_id amount)
    unfolding create_at_unipay
    create_at_unipay-Stays token_id amount = record { stayed = placed_at-related _ }

    place_at_unipay-Ends : (d : Draft) (p : Payable v) → Ends R Q (place_at_unipay v d p)
    unfolding place_at_unipay
    place_at_unipay-Ends d p = bind-Ends (taken _ _) (λ addr.
        bind-Ends (create_at_unipay-Stays _ _)
          (λ res. store_order-Ends (unipay_order v d p res) (payment_of v d res) _ _))

    pub place_order-Ends : (d : Draft) (amount : v.Num) → Ends R Q (place_order v d amount)
    unfolding place_order
    place_order-Ends d amount =
        branch-Ends _ (store_order-Ends (own_order v d (v.stored amount)) no_payment 0 0)
          (place_at_unipay-Ends d (add_premium v d.pay_token_id amount))

    pub maybe_balance-Stays :
        (b : Bool) (chain_type : ChainType) (address : Name) (amount : ℕ)
        → Stays R (branch b (check_balance v chain_type address amount) (reply tt))
    maybe_balance-Stays b chain_type address amount =
        branch-Stays R order b (check_balance-Stays R order v _ _ _) (reply-Stays R order tt)
