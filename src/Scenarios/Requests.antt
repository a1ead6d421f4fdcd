-- ===== src/Scenarios/Requests.antt =====
-- The theorems on the requests at concrete ones.
use Prim.Native.String.{String}
use das_register.Prelude.{
  ◌*◌, length, find?, ◌==◌, nat_coded, ℕ, Bool, true, Option, none, some, List, [], ◌∷◌, ◌≡◌, ◌≢◌,
  ◌≤◌, ◌<◌, ◌++◌, refl, arith, if◌then◌else◌, Among, ◌↔◌, suc, zero, ltb, ap, inl, inr,
}
use das_register.Tables.Names.{Name, ckb_ckb, coupon, AccountCharSet, DasAction, ChainType}
use das_register.Tables.Order.{
  self, Order, TxStatus, RegisterStatus, OrderStatus, is_token_id_ckb_internal,
}
use das_register.Tables.Rest.{Coupon, CouponStatus, five_byte}
use das_register.Dao.Store.{exec, query, transaction}
use das_register.Tables.Pay.{PayInfo}
use das_register.Handle.Reply.{
  Site, done, rejected, coupon_invalid, branch, from_option, guard, reply, ◌>>=◌, ◌>>◌,
}
use das_register.Handle.Coupon.{RespCouponInfo, get_coupon_info, check_coupon}
use das_register.Handle.Text.{acc_len, is_same_dao_char_type}
use das_register.Handle.Place.{RespOrder, place_order}
use das_register.Handle.Register.{do_order_register, do_register_coupon_order}
use das_register.Handle.Change.{do_order_change, do_order_renew, do_order_pay_hash}
use das_register.Handle.Requests.{Request, serve}
use das_register.Handle.Accepted.{Registered, do_order_register-Registered}
use das_register.Handle.Errors.{serve-unchanged}
use das_register.Handle.Cards.{Consistent, do_register_coupon_order-once}
use das_register.Handle.Lookup.{check_coupon-available}
use das_register.Handle.Changed.{do_order_change-both_open}
use das_register.Handle.Renewed.{
  Renewed, Reported, do_order_renew-Renewed, do_order_pay_hash-stored,
}
use das_register.Handle.Locks.{do_register_coupon_order-locks}
use das_register.Handle.Stored.{StoredFor, found_order, place_order-Stored}
use das_register.Handle.InternalOrder.{do_account_register}
use das_register.Handle.Free.{Free}
use das_register.Handle.Sendable.{Sendable, do_account_register-Sendable}
use das_register.Handle.Limits.{acc_len-length, acc_len-wraps}
use das_register.Internal.{default_retry_config, with_retry, answered, is_latest_block_number}
use das_register.Internal.Bounds.{
  Bounded, with_retry-Bounded, with_retry-answers, is_latest_block_number-asked,
}
use das_register.Handle.Search.{check_new_account}
use das_register.Handle.Amounts.{get_order_amount}
use das_register.Unipay.Token.{get_token_info}
use das_register.Samples.Shop.{
  mint_request, shop, shop_site, register_request, card_request, change_request, renew_request,
  pay_hash_request, waiting_site, ckb_draft, asker, shop_db,
}

abbrev ckb_reply : ℕ → RespOrder
ckb_reply amount = record {
  order_id = 70;
  token_id = ckb_ckb;
  receipt_address = 77;
  amount = amount;
  contract_address = 0;
  client_secret = 0;
}

abbrev registered_site : Site
registered_site = (do_order_register shop register_request shop_site).1

abbrev carded_site : Site
carded_site = (do_register_coupon_order shop card_request shop_site).1

abbrev card_reply : RespOrder
card_reply = record (ckb_reply 0) { token_id = coupon; receipt_address = 0 }

abbrev changed_site : Site
changed_site = (do_order_change shop change_request waiting_site).1

abbrev renewed_site : Site
renewed_site = (do_order_renew shop renew_request shop_site).1

abbrev paid_site : Site
paid_site = (do_order_pay_hash shop pay_hash_request shop_site).1

abbrev placed_site : Site
placed_site = (place_order shop ckb_draft 500 shop_site).1

registered_done :
    do_order_register shop register_request shop_site
    ≡ (done (ckb_reply 1_900_000_000), registered_site)
unfolding do_order_register ◌>>=◌ ◌>>◌ guard is_token_id_ckb_internal from_option query reply branch
    check_new_account acc_len is_same_dao_char_type get_order_amount get_token_info transaction
registered_done = refl

carded_done : do_register_coupon_order shop card_request shop_site ≡ (done card_reply, carded_site)
unfolding do_register_coupon_order ◌>>=◌ from_option ◌>>◌ guard query reply acc_len get_order_amount
    transaction
carded_done = refl

changed_done :
    do_order_change shop change_request waiting_site
    ≡ (done (ckb_reply 1_900_000_000), changed_site)
unfolding do_order_change ◌>>◌ guard is_token_id_ckb_internal from_option branch reply query
    get_order_amount get_token_info acc_len transaction
changed_done = refl

renewed_done :
    do_order_renew shop renew_request shop_site ≡ (done (ckb_reply 500_000_000), renewed_site)
unfolding do_order_renew ◌>>◌ guard is_token_id_ckb_internal from_option query reply
    get_order_amount get_token_info branch transaction
renewed_done = refl

paid_done : do_order_pay_hash shop pay_hash_request shop_site ≡ (done tt, paid_site)
unfolding do_order_pay_hash ◌>>◌ guard from_option query exec
paid_done = refl

placed_done : place_order shop ckb_draft 500 shop_site ≡ (done (ckb_reply 500), placed_site)
unfolding place_order branch ◌>>◌ guard transaction reply
placed_done = refl

do_order_register_example :
    Registered shop register_request shop_site (ckb_reply 1_900_000_000) registered_site
do_order_register_example =
    do_order_register-Registered shop register_request shop_site (ckb_reply 1_900_000_000)
      registered_site refl registered_done

-- With no card in the table, a request to pay by one is rejected.
abbrev no_card : Site
no_card = record shop_site {
  world = record shop_site.world { db = record shop_db { coupons = [] } };
}

serve-unchanged_example :
    (serve shop (Request.order_register card_request) no_card).1.world.db ≡ no_card.world.db
unfolding serve ◌>>◌ guard is_token_id_ckb_internal from_option query reply branch check_new_account
    acc_len is_same_dao_char_type
serve-unchanged_example =
    serve-unchanged shop (Request.order_register card_request) no_card coupon_invalid card_refused
  where
    card_refused :
        (serve shop (Request.order_register card_request) no_card).0 ≡ rejected coupon_invalid
    card_refused = refl

do_register_coupon_order-once_example :
    do_register_coupon_order shop card_request carded_site ≢ (done card_reply, carded_site)
do_register_coupon_order-once_example =
    do_register_coupon_order-once shop shop card_request card_request shop_site carded_site
      carded_site carded_site card_reply card_reply unused has_id refl carded_done refl
  where
    unused : Consistent shop_db
    unused = λ c among _. elim among [ inl e ↦ ap (λ x. x.use_at) e | inr e ↦ elim e [ ] ]

    has_id : (a b c d : Name) (x : DasAction) → shop.create_order_id self a x c b d ≢ 0
    has_id = λ a b c d x. ground arith

do_order_change_example :
    (old : Order) × (new : Order) × Among old changed_site.world.db.orders
    × Among new changed_site.world.db.orders
    × (old.order_id ≢ new.order_id)
    × (new.order_id ≡ 70)
    × (old.account_id ≡ new.account_id)
    × ((old.chain_type ≡ new.chain_type) × (old.address ≡ new.address))
    × ((old.register_status ≡ RegisterStatus.confirm_payment)
        × (new.register_status ≡ RegisterStatus.confirm_payment))
    × ((old.order_status ≡ OrderStatus.default) × (new.order_status ≡ OrderStatus.default))
    × Among old waiting_site.world.db.orders
    × (new.pay_status ≡ TxStatus.default)
do_order_change_example =
    do_order_change-both_open shop change_request waiting_site (ckb_reply 1_900_000_000)
      changed_site changed_done

do_order_renew_example : Renewed shop renew_request shop_site (ckb_reply 500_000_000) renewed_site
do_order_renew_example =
    do_order_renew-Renewed shop renew_request shop_site (ckb_reply 500_000_000) renewed_site
      renewed_done

do_order_pay_hash_example :
    (order : Order) × (chain_type : ChainType) × (address : Name) × (shop.format_chain_type_address
        7
      ≡ some (chain_type, address))
    × (found_order 11 shop_site.world.db.orders ≡ some order)
    × ((order.chain_type ≡ chain_type) × (shop.equal_fold address order.address ≡ true))
    × (shop.equal_fold order.account 6 ≡ true)
    × (find? (λ x. x.hash == 23) shop_site.world.db.pays ≡ none)
    × ((p : PayInfo) × Reported pay_hash_request chain_type address order.account_id p
        × (paid_site.world.db.pays ≡ shop_site.world.db.pays ++ p ∷ []))
do_order_pay_hash_example =
    do_order_pay_hash-stored shop pay_hash_request shop_site tt paid_site paid_done

do_register_coupon_order-locks_example :
    (do_register_coupon_order shop card_request shop_site).1.locks ≡ []
do_register_coupon_order-locks_example =
    do_register_coupon_order-locks shop card_request shop_site refl (λ code. refl)

check_coupon_example :
    (CouponStatus.available ≡ CouponStatus.available)
    ↔ ((card : Coupon) × (check_coupon shop 33 shop_site ≡ (done card, shop_site)))
unfolding get_coupon_info ◌>>◌ guard query reply
check_coupon_example = check_coupon-available shop 33 shop_site info shop_site looked_up
  where
    info : RespCouponInfo
    info = record { coupon_type = some five_byte; coupon_status = CouponStatus.available }

    looked_up : get_coupon_info shop 33 shop_site ≡ (done info, shop_site)
    looked_up = refl

place_order_example : StoredFor ckb_draft shop_site (ckb_reply 500) placed_site
place_order_example =
    place_order-Stored shop ckb_draft 500 shop_site (ckb_reply 500) placed_site placed_done

abbrev letters : ℕ → List AccountCharSet
letters zero = []
letters (suc n) = record { char_set_name = 2; char = "a" } ∷ letters n

abbrev letter : String → AccountCharSet
letter c = record { char_set_name = 2; char = c }

acc_len-length_example :
    (acc_len (asker.account_char_str ++ letter "." ∷ letter "b" ∷ letter "i" ∷ letter "t" ∷ []) ≡ 5)
    × ((ys : List AccountCharSet) → length ys ≤ 4 → acc_len ys ≡ length ys)
acc_len-length_example =
    acc_len-length asker.account_char_str (letter ".") (letter "b") (letter "i") (letter "t")
      (omega arith) (omega arith)

acc_len-wraps_example :
    acc_len (letters 256 ++ asker.account_char_str) ≡ acc_len asker.account_char_str
acc_len-wraps_example = acc_len-wraps (letters 256) asker.account_char_str refl (omega arith)

with_retry-Bounded_example :
    Bounded default_retry_config 3
      (with_retry {A = ℕ} default_retry_config (λ i. Option.none) (λ i. some (i * 5_000_000_000)))
with_retry-Bounded_example =
    with_retry-Bounded {A = ℕ} default_retry_config (λ i. none) (λ i. some (i * 5_000_000_000))

-- A node that answers from the third attempt on.
abbrev late : ℕ → Option ℕ
late i = if ltb i 2 then none else some 7

with_retry-answers_example :
    ((with_retry default_retry_config late (λ i. none)).ending ≡ answered 7)
    × ((with_retry default_retry_config late (λ i. none)).calls ≡ 3)
with_retry-answers_example =
    with_retry-answers default_retry_config late (λ i. none) 2 7 (omega arith) refl
      (λ j below. (silent j below, refl))
  where
    silent : (j : ℕ) → j < 2 → late j ≡ none
    silent j below = ground arith

abbrev late_yes : ℕ → Option Bool
late_yes i = if ltb i 2 then none else some true

is_latest_block_number_example :
    ((is_latest_block_number 5 late_yes).1 ≤ 3)
    × (((is_latest_block_number 5 late_yes).0 ≡ true)
        ↔ ((n : ℕ) × (n < 3) × (late_yes n ≡ some true) × ((j : ℕ) → j < n → late_yes j ≡ none)))
is_latest_block_number_example = is_latest_block_number-asked 5 late_yes (ground arith)

abbrev minted_site : Site
minted_site = (do_account_register shop mint_request shop_site).1

minted_done : do_account_register shop mint_request shop_site ≡ (done 70, minted_site)
unfolding do_account_register ◌>>◌ guard branch reply from_option query check_new_account acc_len
    is_same_dao_char_type get_order_amount get_token_info exec
minted_done = refl

do_account_register_example :
    Free shop 8 shop_db × Sendable DasAction.apply_register 8 shop_site 70 minted_site
do_account_register_example =
    do_account_register-Sendable shop mint_request shop_site 70 minted_site minted_done
