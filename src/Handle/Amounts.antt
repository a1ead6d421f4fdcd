-- ===== src/Handle/Amounts.antt =====
-- What an order costs: `getAccountPrice` of http_server/handle/account_detail.go, `getOrderAmount`
-- and the premium of a payment by card of http_server/handle/order_register.go.
use Prim.Native.String.{len}
use das_register.Prelude.{
  ℕ, ◌+◌, ◌/◌, ◌%◌, ◌^◌, Bool, Option, none, some, not, ◌&&◌, nat_coded, ◌==◌, if◌then◌else◌,
}
use das_register.Tables.Names.{
  Name, PayTokenId, pay_token_coded, coupon, ckb_ckb, doge_doge, stripe_usd,
}
use das_register.Unipay.Token.{TokenPriceInfo, get_token_info, round_unit}
use das_register.Handle.Service.{Service, PriceConfig}

module _ (v : Service) where
  -- The base amount and the price of a year.
  pub record Prices : Type 0 where
    pub base_amount : v.Num
    pub account_price : v.Num

  abbrev either_config : Option PriceConfig → Option PriceConfig → Option PriceConfig
  either_config none cached = cached
  either_config (some c) cached = some c

  -- `basicCapacity/OneCkb + len(account) + preparedFeeCapacity/OneCkb`, in a `uint64`
  unfoldable base_capacity : ℕ → ℕ → Name → ℕ
  base_capacity basic prepared account =
      (basic / v.one_ckb + len (v.text account) + prepared / v.one_ckb) % 2 ^ 64

  abbrev with_default : Name → Name
  with_default args = if args == 0 then v.default_args else args

  abbrev bind : {A B : Type 0} → Option A → (A → Option B) → Option B
  bind none f = none
  bind (some a) f = f a

  -- The prices in dollars, by the quote of CKB.
  unfoldable prices_of : Bool → Name → ℕ → ℕ → ℕ → ℕ → ℕ → Prices
  unfolding base_capacity
  prices_of is_renew account new_price renew_price basic prepared quote = record {
    base_amount =
        v.div_round (v.mul (v.of_int (base_capacity basic prepared account)) (v.of_int quote))
          (v.of_int v.usd_rate_base) 6;
    account_price =
        v.div_round (v.of_int (if is_renew then renew_price else new_price))
          (v.of_int v.usd_rate_base) 2;
  }

  -- `getAccountPrice`; the cache of the config cell stands in for the cell.
  unfoldable pub get_account_price : ℕ → Name → Name → Bool → Option Prices
  unfolding prices_of
  get_account_price n args account is_renew =
      if n == 0
      then none
      else bind (either_config v.price_config v.cached_price_config) λ c.
        bind (c.account_price n) λ (new_price, renew_price).
          bind (c.basic_capacity (with_default args)) λ basic.
            bind c.prepared_fee_capacity λ prepared.
              bind v.quote λ quote.
                some (prices_of is_renew account new_price renew_price basic prepared quote)

  pub record Amounts : Type 0 where
    pub total_usd : v.Num
    pub total_ckb : v.Num
    pub total_pay_token : v.Num

  abbrev pub zero_num : v.Num
  zero_num = v.of_int 0

  abbrev pub no_amounts : Amounts
  no_amounts = record { total_usd = zero_num; total_ckb = zero_num; total_pay_token = zero_num }

  abbrev discounted : Name → v.Num → Option v.Num
  discounted inviter price =
      if inviter == 0
      then some price
      else bind v.invited_discount λ discount. some (
          v.mul price
            (v.sub (v.of_int 1) (v.div (v.of_int discount) (v.of_int v.percent_rate_base))))

  -- `config.Cfg.Das.Premium` and `Discount`, each where it is positive.
  abbrev with_premium : v.Num → v.Num
  with_premium a =
      if v.exceeds v.cfg.premium zero_num then v.mul a (v.add v.cfg.premium (v.of_int 1)) else a

  abbrev with_discount : v.Num → v.Num
  with_discount a = if v.exceeds v.cfg.discount zero_num then v.mul a v.cfg.discount else a

  -- Rounded up to whole cents.
  abbrev ceil_cents : v.Num → v.Num
  ceil_cents a = v.div_round (v.ceil (v.mul a (v.of_int 100))) (v.of_int 100) 2

  -- `unipay.RoundAmount`
  abbrev rounded : PayTokenId → v.Num → v.Num
  rounded token a =
      if round_unit token == 1
      then a
      else v.mul (v.ceil (v.div a (v.of_int (round_unit token)))) (v.of_int (round_unit token))

  abbrev ckb_of : ℕ → v.Num → v.Num
  ckb_of quote usd =
      v.ceil
        (v.mul (v.div usd (v.div (v.of_int quote) (v.of_int v.usd_rate_base))) (v.of_int v.one_ckb))

  abbrev pay_token_of : TokenPriceInfo → v.Num → v.Num → v.Num
  pay_token_of token usd ckb =
      if token.token_id == doge_doge && not v.is_das_main_net
      then v.of_int v.doge_amount
      else if token.token_id == ckb_ckb
      then ckb
      else v.ceil (v.mul (v.div usd (v.of_price token.price)) (v.power token.decimals))

  unfoldable amounts_of : TokenPriceInfo → ℕ → v.Num → v.Num → Amounts
  amounts_of token quote price base =
      let usd = ceil_cents (v.add (with_discount (with_premium price)) base) in
      let ckb = ckb_of quote usd in
      record {
        total_usd = usd;
        total_ckb = ckb;
        total_pay_token = rounded token.token_id (pay_token_of token usd ckb);
      }

  -- `getOrderAmount`; a gift card pays for everything.
  unfoldable pub get_order_amount : ℕ → Name → Name → Name → ℕ → Bool → PayTokenId → Option Amounts
  unfolding amounts_of get_account_price
  get_order_amount n args account inviter years is_renew token_id =
      if token_id == coupon
      then some no_amounts
      else bind (get_token_info v.tokens token_id) λ token. bind v.quote λ quote.
        bind (get_account_price n args account is_renew) λ prices.
          bind (discounted inviter (v.mul prices.account_price (v.of_int years))) λ price.
            some (amounts_of token quote price (if is_renew then zero_num else prices.base_amount))

  -- The three tests against zero before an order is made.
  abbrev pub is_payable : Amounts → Bool
  is_payable a =
      v.exceeds a.total_usd zero_num
      && v.exceeds a.total_ckb zero_num
      && v.exceeds a.total_pay_token zero_num

  abbrev pub is_free : Amounts → Bool
  is_free a =
      v.equals a.total_usd zero_num
      && v.equals a.total_ckb zero_num
      && v.equals a.total_pay_token zero_num

  -- What is paid in the end, and the premium of a payment by card.
  pub record Payable : Type 0 where
    pub amount : v.Num
    pub premium_percentage : v.Num
    pub premium_base : v.Num
    pub premium_amount : v.Num

  abbrev pub plain : v.Num → Payable
  plain amount = record {
    amount = amount;
    premium_percentage = zero_num;
    premium_base = zero_num;
    premium_amount = zero_num;
  }

  abbrev with_card : v.Num → v.Num
  with_card amount = v.of_int (
      v.int_part (
        v.ceil (
          v.add (v.mul amount (v.add v.cfg.stripe_premium_percentage (v.of_int 1)))
            (v.mul v.cfg.stripe_premium_base (v.of_int 100)))))

  unfoldable pub add_premium : PayTokenId → v.Num → Payable
  add_premium token_id amount =
      if token_id == stripe_usd
      then record {
        amount = with_card amount;
        premium_percentage = v.cfg.stripe_premium_percentage;
        premium_base = v.cfg.stripe_premium_base;
        premium_amount = v.sub (with_card amount) amount;
      }
      else plain amount
