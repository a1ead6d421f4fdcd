-- ===== src/Handle/Accepted.antt =====
-- When a request for an order is done: what the tables held before, and the order that they hold after.
use mathlib.Core.Path.{subst}
use das_register.Prelude.{
  ◌≤◌, ◌<◌, length, some, refl, true, ◌≡◌, inl, inr, ◌∙◌, ap, arith, nat_coded,
}
use das_register.Tables.Names.{Name, ChainType, DasAction, pay_token_coded}
use das_register.Tables.Order.{
  Order, OrderContent, RegisterStatus, search_status_coded, tx_status_coded, order_status_coded,
  register_status_coded,
}
use das_register.Handle.Reply.{Site, done}
use das_register.Handle.Service.{Service}
use das_register.Handle.Amounts.{Amounts, is_payable}
use das_register.Handle.Rules.{branch-Stays, reply-Stays}
use das_register.Handle.Place.{Draft, RespOrder, check_chain_type}
use das_register.Handle.Register.{
  ReqOrderRegister, ReqOrderRegisterBase, do_register_order, register_draft, whitelisted,
  create_either, do_order_register, at_address, content_of,
}
use das_register.Handle.Reads.{
  check_balance-Stays, check_order_info-Stays, check_register_able-Stays, check_request-Stays,
}
use das_register.Handle.Errors.{SameDb, SameDb-SiteOrder}
use das_register.Handle.Done.{
  Comes, branch-Comes, after_guard, after_option, after_step, after_check,
}
use das_register.Handle.Free.{
  Asked, Free, un_paid, check_request-Asked, check_register_able-Free, check_order_info-years,
}
use das_register.Handle.Stored.{
  Stored, Unpaid, IsOrderOf, IsOrderOf-Unpaid, StoredFor, Stored-before, place_order-Stored,
}

-- The request with the channel that its order gets.
abbrev pub with_channel : Service → ReqOrderRegister → ReqOrderRegisterBase
with_channel v req = record req.base { channel_account = whitelisted v req.base }

pub StoredFor-before :
    (d : Draft) (s s' : Site) (r : RespOrder) (t : Site)
    → s'.world.db ≡ s.world.db
    → StoredFor d s' r t
    → StoredFor d s r t
StoredFor-before d s s' r t same (o, of_draft, stored) =
    (o, of_draft, Stored-before s s' t o same stored)

do_register_order-Stored :
    (v : Service) (req : ReqOrderRegister) (s : Site) (r : RespOrder) (t : Site)
    → Comes (do_register_order v req) s r t
    → (a : Amounts v) × (is_payable v a ≡ true)
      × StoredFor (register_draft v req (with_channel v req) a) s r t
unfolding do_register_order
do_register_order-Stored v req s r t e =
    let (args, _, e1) = after_option _ _ _ s r t e in
    let (a, _, e2) = after_option _ _ _ s r t e1 in
    let (payable, e3) = after_guard _ _ _ s r t e2 in
    let (_, s4, same4, _, e4) =
      after_check SameDb _ _ s r t
        (branch-Stays SameDb SameDb-SiteOrder _
          (check_balance-Stays SameDb SameDb-SiteOrder v _ _ _)
          (reply-Stays SameDb SameDb-SiteOrder tt))
        e3 in
    (
      a,
      payable,
      StoredFor-before (register_draft v req (with_channel v req) a) s s4 r t same4 (
          place_order-Stored v (register_draft v req (with_channel v req) a) a.total_pay_token s4 r
            t e4),
    )

-- A request to register that is done, and is not paid by a gift card.
pub record Registered (v : Service) (req : ReqOrderRegister) (s : Site) (r : RespOrder) (t : Site)
    : Type 0 where
  pub chain_type : ChainType
  pub address : Name
  pub formatted : v.format_chain_type_address req.search.key_info ≡ some (chain_type, address)
  pub registers : check_chain_type v chain_type ≡ true
  pub few : length (un_paid chain_type address s.world.db.orders) ≤ 300
  pub years_fit :
      (0 < req.base.register_years) × (req.base.register_years ≤ v.cfg.max_register_years)
  pub free : Free v req.search.account s.world.db
  pub order : Order
  pub content : OrderContent
  pub unpaid :
      Unpaid DasAction.apply_register
        (v.account_id req.search.account)
        req.search.account
        chain_type
        address
        req.pay_token_id
        content
        r
        order
  pub waits : order.register_status ≡ RegisterStatus.confirm_payment
  pub years : content.register_years ≡ req.base.register_years
  pub chars : content.account_char_str ≡ req.search.account_char_str
  pub stored : Stored s t order

Asked-account :
    (v : Service) (req : ReqOrderRegister) (s : Site) (asked : ReqOrderRegister)
    → Asked v req s asked
    → (asked.search.account ≡ req.search.account)
      × (asked.base ≡ req.base)
      × (asked.gift_card ≡ req.gift_card)
Asked-account v req s asked h = (
  ap (λ x. x.search.account) h.asked_eq,
  ap (λ x. x.base) h.asked_eq,
  ap (λ x. x.gift_card) h.asked_eq,
)

by_token :
    (v : Service) (req : ReqOrderRegister) (s : Site) (r : RespOrder) (t : Site)
    → req.gift_card ≡ 0
    → Comes (create_either v req) s r t
    → Comes (do_register_order v req) s r t
unfolding create_either
by_token v req s r t no_card e = elim (branch-Comes _ _ _ s r t e) [
  | inl (_, paid) ↦ paid
  | inr (other, _) ↦ absurd (ground (arith, no_card, other))
]

-- The order that a draft of `doRegisterOrder` leads to.
registered_order :
    (v : Service) (req asked : ReqOrderRegister) (base : ReqOrderRegisterBase) (a : Amounts v)
    (chain_type : ChainType) (address : Name) (r : RespOrder) (o : Order)
    → asked ≡ at_address req chain_type address
    → base.register_years ≡ req.base.register_years
    → IsOrderOf (register_draft v asked base a) r o
    → (content : OrderContent) × Unpaid DasAction.apply_register
        (v.account_id req.search.account)
        req.search.account
        chain_type
        address
        req.pay_token_id
        content
        r
        o
      × (o.register_status ≡ RegisterStatus.confirm_payment)
      × (content.register_years ≡ req.base.register_years)
      × (content.account_char_str ≡ req.search.account_char_str)
unfolding register_draft content_of
registered_order v req asked base a chain_type address r o same years h =
    let draft = register_draft v (at_address req chain_type address) base a in
    let of_draft : IsOrderOf draft r o =
      subst (λ x. IsOrderOf (register_draft v x base a) r o) same h in
    (_, IsOrderOf-Unpaid draft r o _ refl refl of_draft, of_draft.statuses_eq.0, years, refl)

-- A request to register that is done, and is not paid by a gift card, came from an address whose chain
-- registers and that had at most 300 open orders not paid, for a number of years within the limit, for
-- an account that no row holds as registered and no open order has pre-registered; and it has added to
-- the orders one to register that account, of that address, in the token and for the years asked for,
-- that is open, is not paid and waits for its payment, under a new id, which finds it.
pub do_order_register-Registered :
    (v : Service) (req : ReqOrderRegister) (s : Site) (r : RespOrder) (t : Site)
    → req.gift_card ≡ 0
    → do_order_register v req s ≡ (done r, t)
    → Registered v req s r t
unfolding do_order_register
do_order_register-Registered v req s r t by_card e =
    let (asked, s1, same1, asking, e1) =
      after_step SameDb _ _ s r t (check_request-Stays SameDb SameDb-SiteOrder v req) e in
    let fits = check_request-Asked v req s asked s1 asking in
    let (account_eq, base_eq, card_eq) = Asked-account v req s asked fits in
    let (base, s2, same2, checked, e2) =
      after_step SameDb _ _ s1 r t (check_order_info-Stays SameDb SameDb-SiteOrder v _ _ asked.base)
        e1 in
    let (more, less, kept, _) = check_order_info-years v _ _ asked.base base s1 s2 checked in
    let (u, s3, same3, able, e3) =
      after_check SameDb _ _ s2 r t
        (check_register_able-Stays SameDb SameDb-SiteOrder v asked.search) e2 in
    let whole : ReqOrderRegister = record asked { base = base } in
    let (a, _, (o, of_draft, stored)) =
      do_register_order-Stored v whole s3 r t (by_token v whole s3 r t (card_eq ∙ by_card) e3) in
    let years : base.register_years ≡ req.base.register_years =
      kept ∙ ap (λ x. x.register_years) base_eq in
    let (content, unpaid, waits, of_years, of_chars) =
      registered_order v (record req { base = base }) whole (with_channel v whole) a fits.chain_type
        fits.address r o (ap (λ (x : ReqOrderRegister). record x { base = base }) fits.asked_eq)
        refl of_draft in
    record {
      chain_type = fits.chain_type;
      address = fits.address;
      formatted = fits.formatted;
      registers = fits.registers;
      few = fits.few;
      years_fit =
          subst (λ x. (0 < x.register_years) × (x.register_years ≤ v.cfg.max_register_years))
            base_eq (more, less);
      free =
          subst (λ x. Free v x s.world.db) account_eq
            (subst (λ db. Free v asked.search.account db) (same2 ∙ same1)
              (check_register_able-Free v asked.search s2 u s3 able));
      order = o;
      content = content;
      unpaid = unpaid;
      waits = waits;
      years = of_years ∙ years;
      chars = of_chars;
      stored = Stored-before s s3 t o (same3 ∙ (same2 ∙ same1)) stored;
    }
