-- ===== src/Handle/Closes.antt =====
-- The handlers end as their steps do: what holds after reads, and after the one store of a handler,
-- holds after each of them.
use das_register.Prelude.{ℕ, Bool, true, false, Option, List, nat_coded, ◌∷◌, if◌then◌else◌}
use das_register.Tables.Names.{Name, ChainType, pay_token_coded}
use das_register.Tables.Order.{Order, OrderContent}
use das_register.Tables.Rest.{AccountInfo}
use das_register.Dao.Store.{Done}
use das_register.Dao.Queries.{get_order_by_order_id}
use das_register.Handle.Reply.{
  ApiCode, Reply, done, rejected, Site, Handler, ◌>>=◌, ◌>>◌, reply, branch, from_option, error500,
  guard,
}
use das_register.Handle.Service.{Service, seconds}
use das_register.Handle.Coupon.{
  get_coupon_lock_with_redis, delete_coupon_lock_with_redis, locked_unless,
}
use das_register.Handle.Place.{check_balance, Draft, own_order, place_order}
use das_register.Handle.Register.{
  ReqOrderRegister, ReqOrderRegisterBase, do_register_order, store_coupon_order, use_coupon,
  coupon_draft, given_back, do_register_coupon_order, create_either, do_order_register,
}
use das_register.Handle.Change.{
  ReqOrderChange, as_register, do_new_order, do_order_change, ReqOrderPayHash, pay_info_of,
  do_order_pay_hash,
}
use das_register.Handle.InternalOrder.{
  ReqAccountRegister, ReqAccountRenew, store_internal_order, internal_register_draft,
  internal_renew_draft, do_internal_register_order, do_internal_renew_order, do_account_register,
  do_account_renew, found_at,
}
use das_register.Handle.Rules.{SiteOrder, Stays, guard-Stays, from_option-Stays, read-Stays}
use das_register.Handle.Requests.{Request, serve}
use das_register.Handle.Reads.{
  do_account_search-Stays, do_check_coupon-Stays, check_system_upgrade-Stays, check_latest-Stays,
  check_coupon-Stays, check_order_info-Stays, check_register_able-Stays, check_request-Stays,
  old_order_check-Stays, check_internal_renew-Stays, with_chars-Stays,
}
use das_register.Handle.Ends.{
  End, Ends, Closing, Stays-Ends, bind-Ends, also-Ends, branch-Ends, last-Ends, place_order-Ends,
  maybe_balance-Stays,
}

module _ (R Q : Site → Site → Type 0) (closing : Closing R Q) where
  order : SiteOrder R
  order = closing.order

  next :
      {A B : Type 0} {m : Handler A} {f : A → Handler B}
      → Stays R m
      → ((a : A) → Ends R Q (f a))
      → Ends R Q (m >>= f)
  next first keep = bind-Ends R Q closing first keep

  also : {A B : Type 0} {m : Handler A} {k : Handler B} → Stays R m → Ends R Q k → Ends R Q (m >> k)
  also first keep = also-Ends R Q closing first keep

  either :
      {A : Type 0} (b : Bool) {m k : Handler A} → Ends R Q m → Ends R Q k → Ends R Q (branch b m k)
  either b left right = branch-Ends R Q closing b left right

  last : {A B : Type 0} {m : Handler A} (b : B) → Ends R Q m → Ends R Q (m >> reply b)
  last b first = last-Ends R Q closing b first

  asked : (b : Bool) (code : ApiCode) → Stays R (guard b code)
  asked b code = guard-Stays R order b code

  taken : {A : Type 0} (o : Option A) (code : ApiCode) → Stays R (from_option o code)
  taken o code = from_option-Stays R order o code

  module _ (v : Service) where
    placed-Ends : (d : Draft) (amount : v.Num) → Ends R Q (place_order v d amount)
    placed-Ends d amount = place_order-Ends R Q closing v d amount

    balance-Stays :
        (b : Bool) (chain_type : ChainType) (address : Name) (amount : ℕ)
        → Stays R (branch b (check_balance v chain_type address amount) (reply tt))
    balance-Stays b chain_type address amount =
        maybe_balance-Stays R Q closing v b chain_type address amount

    do_register_order-Ends : (req : ReqOrderRegister) → Ends R Q (do_register_order v req)
    unfolding do_register_order
    do_register_order-Ends req = next (taken _ _) (λ args.
        next (taken _ _) (λ a. also (asked _ _) (also (balance-Stays _ _ _ _) (placed-Ends _ _))))

    lock-related : (b : Bool) (code : Name) (s : Site) → R s (locked_unless b code s).1
    lock-related true code s = closing.locking s s.locks
    lock-related false code s = closing.locking s (code ∷ s.locks)

    get_lock-Stays : (code : Name) → Stays R (get_coupon_lock_with_redis v code)
    unfolding get_coupon_lock_with_redis
    get_lock-Stays code = record { stayed = λ s. lock-related _ code s }

    unlocked-R :
        (b : Bool) (s t : Site) (codes : List Name)
        → R s t
        → R s (if b then t else record t { locks = codes })
    unlocked-R true s t codes e = e
    unlocked-R false s t codes e =
        order.join s t (record t { locks = codes }) e (closing.locking t codes)

    unlocked-Q :
        (b : Bool) (s t : Site) (codes : List Name)
        → Q s t
        → Q s (if b then t else record t { locks = codes })
    unlocked-Q true s t codes e = e
    unlocked-Q false s t codes e = closing.unlocking s t codes e

    given_back-End :
        (o : Order) (code : Name) (s : Site) (p : Reply Done × Site)
        → End R Q s p
        → End R Q s (given_back v o code p)
    unfolding delete_coupon_lock_with_redis
    given_back-End o code s (done a, t) e = unlocked-Q _ s t _ e
    given_back-End o code s (rejected c, t) e = unlocked-R _ s t _ e

    store_coupon_order-Ends : (o : Order) (code : Name) → Ends R Q (store_coupon_order v o code)
    unfolding store_coupon_order
    store_coupon_order-Ends o code = record {
      ended = λ s.
          given_back-End o code s _ ((closing.with_coupon error500 (seconds v) o code).ended s);
    }

    use_coupon-Ends :
        (req : ReqOrderRegister) (args code : Name) → Ends R Q (use_coupon v req args code)
    unfolding use_coupon
    use_coupon-Ends req args code = next (taken _ _) (λ a. also (asked _ _) (
        store_coupon_order-Ends (own_order v (coupon_draft v req a) (v.stored a.total_pay_token))
          code))

    pub do_register_coupon_order-Ends :
        (req : ReqOrderRegister) → Ends R Q (do_register_coupon_order v req)
    unfolding do_register_coupon_order
    do_register_coupon_order-Ends req = next (taken _ _) (λ args. also (asked _ _) (
        next (check_coupon-Stays R order v _) (λ card.
          also (asked _ _) (also (get_lock-Stays card.code) (use_coupon-Ends req args card.code)))))

    create_either-Ends : (req : ReqOrderRegister) → Ends R Q (create_either v req)
    unfolding create_either
    create_either-Ends req =
        either _ (do_register_order-Ends req) (do_register_coupon_order-Ends req)

    pub do_order_register-Ends : (req : ReqOrderRegister) → Ends R Q (do_order_register v req)
    unfolding do_order_register
    do_order_register-Ends req = next (check_request-Stays R order v req) (λ asked.
        next (check_order_info-Stays R order v _ _ asked.base) (λ base.
          also (check_register_able-Stays R order v asked.search)
            (create_either-Ends (record asked { base = base }))))

    do_new_order-Ends :
        (req : ReqOrderRegister) (base : ReqOrderRegisterBase) (old : OrderContent)
        → Ends R Q (do_new_order v req base old)
    unfolding do_new_order
    do_new_order-Ends req base old =
        next (taken _ _) (λ args. next (taken _ _) (λ a. also (asked _ _) (placed-Ends _ _)))

    pub do_order_change-Ends : (req : ReqOrderChange) → Ends R Q (do_order_change v req)
    unfolding do_order_change
    do_order_change-Ends req = also (asked _ _) (
        also (asked _ _) (
          next (taken _ _) (λ addr. also (check_system_upgrade-Stays R order v) (
            also (check_latest-Stays R order v) (
              next (check_order_info-Stays R order v _ _ _) (λ base.
                next (old_order_check-Stays R order v _ _ _) (λ old.
                  do_new_order-Ends
                    (as_register req addr.0 addr.1 (v.to_lower req.account) old.account_char_str)
                    base old)))))))

    pub do_order_pay_hash-Ends : (req : ReqOrderPayHash) → Ends R Q (do_order_pay_hash v req)
    unfolding do_order_pay_hash get_order_by_order_id
    do_order_pay_hash-Ends req = also (asked _ _) (
        next (taken _ _) (λ addr. next (read-Stays R order _ _) (λ found. next (taken _ _) (λ o.
          also (asked _ _)
            (also (asked _ _) (closing.with_pay_info _ (pay_info_of v req addr.0 addr.1 o)))))))

    store_internal_order-Ends : (o : Order) → Ends R Q (store_internal_order o)
    unfolding store_internal_order
    store_internal_order-Ends o = last _ (closing.with_order _ o)

    do_internal_register_order-Ends :
        (req : ReqAccountRegister) (base : ReqOrderRegisterBase)
        → Ends R Q (do_internal_register_order v req base)
    unfolding do_internal_register_order
    do_internal_register_order-Ends req base = next (taken _ _) (λ args. next (taken _ _) (λ a.
        also (asked _ _) (
          store_internal_order-Ends
            (own_order v (internal_register_draft v req base a) (v.stored a.total_pay_token)))))

    pub do_account_register-Ends : (req : ReqAccountRegister) → Ends R Q (do_account_register v req)
    unfolding do_account_register
    do_account_register-Ends req = also (asked _ _) (
        next (with_chars-Stays R order v req.search) (λ search. next (taken _ _) (λ addr.
          also (asked _ _) (
            also (check_system_upgrade-Stays R order v) (
              also (check_latest-Stays R order v) (
                next (check_order_info-Stays R order v 0 0 req.base) (λ base.
                  also
                    (check_register_able-Stays R order v (found_at req search addr.0 addr.1).search)
                    (do_internal_register_order-Ends (found_at req search addr.0 addr.1)
                      base))))))))

    do_internal_renew_order-Ends :
        (chain_type : ChainType) (address account : Name) (years : ℕ) (acc : AccountInfo)
        → Ends R Q (do_internal_renew_order v chain_type address account years acc)
    unfolding do_internal_renew_order
    do_internal_renew_order-Ends chain_type address account years acc = next (taken _ _) (λ count.
        next (taken _ _) (λ a. also (asked _ _) (
          store_internal_order-Ends (
            own_order v (internal_renew_draft v chain_type address account years a)
              (v.stored a.total_pay_token)))))

    pub do_account_renew-Ends : (req : ReqAccountRenew) → Ends R Q (do_account_renew v req)
    unfolding do_account_renew
    do_account_renew-Ends req = also (asked _ _) (
        next (taken _ _) (λ addr. also (check_system_upgrade-Stays R order v) (
          also (check_latest-Stays R order v) (
            next (check_internal_renew-Stays R order v _ _)
              (λ acc. do_internal_renew_order-Ends _ _ _ _ acc)))))

    pub serve-Ends : (req : Request) → Ends R Q (serve v req)
    unfolding serve
    serve-Ends (Request.account_search req) =
        last tt (Stays-Ends R Q closing (do_account_search-Stays R order v req))
    serve-Ends (Request.check_coupon code) =
        last tt (Stays-Ends R Q closing (do_check_coupon-Stays R order v code))
    serve-Ends (Request.order_register req) = last tt (do_order_register-Ends req)
    serve-Ends (Request.order_change req) = last tt (do_order_change-Ends req)
    serve-Ends (Request.order_pay_hash req) = last tt (do_order_pay_hash-Ends req)
    serve-Ends (Request.account_register req) = last tt (do_account_register-Ends req)
    serve-Ends (Request.account_renew req) = last tt (do_account_renew-Ends req)
