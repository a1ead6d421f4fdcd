-- ===== src/Handle/Locks.antt =====
-- The lock of a gift card, from the request that takes it to its end.
use das_register.Prelude.{
  Bool, true, false, List, [], ◌∷◌, ◌≡◌, refl, ◌∙◌, ap, arith, ◌||◌, contains, nat_coded, ◌==◌,
}
use das_register.Tables.Names.{Name, pay_token_coded}
use das_register.Tables.Order.{Order}
use das_register.Dao.Store.{Done, World, Result, ok, err}
use das_register.Handle.Reply.{Site, ◌>>=◌, ◌>>◌, from_dao, guard, from_option, error500}
use das_register.Handle.Service.{Service}
use das_register.Handle.Coupon.{
  get_coupon_lock_with_redis, delete_coupon_lock_with_redis, locked_unless, release,
}
use das_register.Handle.Amounts.{get_order_amount, no_amounts}
use das_register.Handle.Place.{own_order}
use das_register.Handle.Register.{
  ReqOrderRegister, coupon_draft, given_back, store_coupon_order, use_coupon,
  do_register_coupon_order,
}
use das_register.Handle.Rules.{
  SiteOrder, Stays, bind-Stays, also-Stays, guard-Stays, from_option-Stays,
}
use das_register.Handle.Reads.{check_coupon-Stays}

abbrev SameLocks : Site → Site → Type 0
SameLocks s t = t.locks ≡ s.locks

SameLocks-SiteOrder : SiteOrder SameLocks
SameLocks-SiteOrder = record { join = λ a b c p q. q ∙ p; reads = λ s w e. refl }

release_absent : (code : Name) (xs : List Name) → contains code xs ≡ false → release code xs ≡ xs
release_absent code [] e = refl
release_absent code (x ∷ xs) e = ground (arith, e, release_absent code xs)

release_taken :
    (code : Name) (xs : List Name) → contains code xs ≡ false → release code (code ∷ xs) ≡ xs
release_taken code xs e =
    let head : (code == code) ≡ true = ground arith in rw (head) (release_absent code xs e)

deleted :
    (v : Service) (code : Name) (s : Site) (locks : List Name)
    → v.del_fails code ≡ false
    → contains code locks ≡ false
    → s.locks ≡ code ∷ locks
    → (delete_coupon_lock_with_redis v code s).locks ≡ locks
unfolding delete_coupon_lock_with_redis
deleted v code s locks works absent e =
    rw (works) (ap (λ xs. release code xs) e ∙ release_taken code locks absent)

given_back-locks :
    (v : Service) (o : Order) (code : Name) (s : Site) (locks : List Name) (p : Result Done × World)
    → v.del_fails code ≡ false
    → contains code locks ≡ false
    → s.locks ≡ code ∷ locks
    → (given_back v o code (from_dao error500 (λ _. p) s)).1.locks ≡ locks
unfolding from_dao
given_back-locks v o code s locks (ok u, w) works absent e =
    deleted v code (record s { world = w }) locks works absent e
given_back-locks v o code s locks (err x, w) works absent e =
    deleted v code (record s { world = w }) locks works absent e

use_coupon-locks :
    (v : Service) (req : ReqOrderRegister) (args code : Name) (s : Site) (locks : List Name)
    → v.equals (v.of_int 0) (v.of_int 0) ≡ true
    → v.del_fails code ≡ false
    → contains code locks ≡ false
    → s.locks ≡ code ∷ locks
    → (use_coupon v req args code s).1.locks ≡ locks
unfolding use_coupon get_order_amount ◌>>=◌ ◌>>◌ from_option guard store_coupon_order
use_coupon-locks v req args code s locks zero works absent e = rw (zero) (
    given_back-locks v (own_order v (coupon_draft v req (no_amounts v)) (v.stored (v.of_int 0)))
      code s locks _ works absent e)

locked-locks :
    (b : Bool) (v : Service) (req : ReqOrderRegister) (args code : Name) (s : Site)
    → v.equals (v.of_int 0) (v.of_int 0) ≡ true
    → v.del_fails code ≡ false
    → (v.set_nx_fails code || contains code s.locks) ≡ b
    → (◌>>=◌ (locked_unless b code) (λ _. use_coupon v req args code) s).1.locks ≡ s.locks
unfolding ◌>>=◌
locked-locks true v req args code s zero works e = refl
locked-locks false v req args code s zero works e =
    use_coupon-locks v req args code (record s { locks = code ∷ s.locks }) s.locks zero works
      (ground (arith, e)) refl

lock_step-Stays :
    (v : Service) (req : ReqOrderRegister) (args code : Name)
    → v.equals (v.of_int 0) (v.of_int 0) ≡ true
    → v.del_fails code ≡ false
    → Stays SameLocks (get_coupon_lock_with_redis v code >> use_coupon v req args code)
unfolding get_coupon_lock_with_redis ◌>>◌ ◌>>=◌
lock_step-Stays v req args code zero works = record {
  stayed = λ s. locked-locks _ v req args code s zero works refl;
}

-- A request that pays by a gift card gives back the lock of the card, whether it is done or rejected
-- at any of its steps: the cards that are locked afterwards are those that were before. Where redis
-- can delete the lock, and zero equals zero as decimals.
pub do_register_coupon_order-locks :
    (v : Service) (req : ReqOrderRegister) (s : Site)
    → v.equals (v.of_int 0) (v.of_int 0) ≡ true
    → ((code : Name) → v.del_fails code ≡ false)
    → (do_register_coupon_order v req s).1.locks ≡ s.locks
unfolding do_register_coupon_order
do_register_coupon_order-locks v req s zero works = whole.stayed s
  where
    whole : Stays SameLocks (do_register_coupon_order v req)
    whole =
        bind-Stays SameLocks SameLocks-SiteOrder
          (from_option-Stays SameLocks SameLocks-SiteOrder _ _)
          (λ args.
            also-Stays SameLocks SameLocks-SiteOrder (guard-Stays SameLocks SameLocks-SiteOrder _ _)
              (bind-Stays SameLocks SameLocks-SiteOrder
                (check_coupon-Stays SameLocks SameLocks-SiteOrder v _)
                (λ card.
                  also-Stays SameLocks SameLocks-SiteOrder
                    (guard-Stays SameLocks SameLocks-SiteOrder _ _)
                    (lock_step-Stays v req args card.code zero (works card.code)))))
