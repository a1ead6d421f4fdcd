-- ===== src/Unipay/Token.antt =====
-- timer/token.go and the rounding of unipay/unipay.go: the price table of the pay tokens, and the
-- rounding of an amount, a whole number of a token's smallest unit, to a multiple of ten's power.
use das_register.Prelude.{ℕ, ◌+◌, ◌-◌, ◌*◌, ◌/◌, Option, List, ◌||◌, find?, ◌==◌, if◌then◌else◌}
use das_register.Tables.Names.{
  PayTokenId, pay_token_coded, ckb_das, ckb_ckb, ckb_internal, eth_eth, tron_trx, bsc_bnb,
  polygon_pol, doge_doge, eth_erc20_usdt, tron_trc20_usdt, bsc_bep20_usdt, padge_internal,
}

-- `TableTokenPriceInfo`; `price` is positive or zero, in a unit of the model's own.
pub record TokenPriceInfo : Type 0 where
  pub token_id : PayTokenId
  pub decimals : ℕ
  pub price : ℕ

-- The tokens that stand for CKB are priced as CKB.
unfoldable priced_as : PayTokenId → PayTokenId
priced_as token_id =
    if token_id == ckb_das || token_id == ckb_internal || token_id == padge_internal
    then ckb_ckb
    else token_id

-- `GetTokenInfo` on the map that `doUpdateTokenMap` filled; `none` is the zero value of a missing key.
unfoldable pub get_token_info : List TokenPriceInfo → PayTokenId → Option TokenPriceInfo
unfolding priced_as
get_token_info map_token token_id = find? (λ t. t.token_id == priced_as token_id) map_token

-- `amount.Div(dec).Ceil().Mul(dec)` for a whole amount: the quotient has as many decimals as `dec`
-- has zeros, eight at most, so the sixteen of `decimal.Div` hold it exactly.
unfoldable pub round_up : ℕ → ℕ → ℕ
round_up dec amount = (amount + (dec - 1)) / dec * dec

-- The power of ten of each `case`, and 1 where the amount is left alone.
abbrev pub round_unit : PayTokenId → ℕ
round_unit eth_eth = 100000000
round_unit bsc_bnb = 100000000
round_unit polygon_pol = 100000000
round_unit ckb_das = 10000
round_unit ckb_ckb = 10000
round_unit ckb_internal = 10000
round_unit doge_doge = 10000
round_unit padge_internal = 10000
round_unit tron_trx = 1000
round_unit eth_erc20_usdt = 1000
round_unit bsc_bep20_usdt = 1000
round_unit tron_trc20_usdt = 1000
round_unit _ = 1

unfoldable pub round_amount : ℕ → PayTokenId → ℕ
unfolding round_up
round_amount amount token_id = round_up (round_unit token_id) amount
