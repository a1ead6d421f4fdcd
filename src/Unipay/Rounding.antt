-- ===== src/Unipay/Rounding.antt =====
-- unipay/unipay.go: the rounding of an amount never asks for less, and for less than a unit more.
use das_register.Prelude.{ℕ, ◌+◌, ◌%◌, ◌≤◌, ◌<◌, ◌≡◌, arith}
use das_register.Tables.Names.{
  PayTokenId, ckb_das, ckb_ckb, ckb_internal, eth_eth, tron_trx, wx_cny, bsc_bnb, polygon_pol,
  coupon, doge_doge, stripe_usd, eth_erc20_usdt, tron_trc20_usdt, bsc_bep20_usdt, did_point,
  padge_internal, ckb_ccc,
}
use das_register.Unipay.Token.{round_up, round_unit, round_amount}

-- At least the amount, less than a unit above it, and a whole number of units.
abbrev pub IsRounding : ℕ → ℕ → ℕ → Type 0
IsRounding dec amount r = (amount ≤ r) × (r < amount + dec) × (r % dec ≡ 0)

by_1e8 : (amount : ℕ) → IsRounding 100000000 amount (round_up 100000000 amount)
unfolding round_up
by_1e8 amount = (omega arith, omega arith, omega arith)

by_1e4 : (amount : ℕ) → IsRounding 10000 amount (round_up 10000 amount)
unfolding round_up
by_1e4 amount = (omega arith, omega arith, omega arith)

by_1e3 : (amount : ℕ) → IsRounding 1000 amount (round_up 1000 amount)
unfolding round_up
by_1e3 amount = (omega arith, omega arith, omega arith)

by_1 : (amount : ℕ) → IsRounding 1 amount (round_up 1 amount)
unfolding round_up
by_1 amount = (omega arith, omega arith, omega arith)

-- `RoundAmount` asks for at least the amount, for less than one unit of the token above it, and for
-- a whole number of units.
pub round_amount-IsRounding :
    (amount : ℕ) (token_id : PayTokenId)
    → IsRounding (round_unit token_id) amount (round_amount amount token_id)
unfolding round_amount
round_amount-IsRounding amount ckb_das = by_1e4 amount
round_amount-IsRounding amount ckb_ckb = by_1e4 amount
round_amount-IsRounding amount ckb_internal = by_1e4 amount
round_amount-IsRounding amount eth_eth = by_1e8 amount
round_amount-IsRounding amount tron_trx = by_1e3 amount
round_amount-IsRounding amount wx_cny = by_1 amount
round_amount-IsRounding amount bsc_bnb = by_1e8 amount
round_amount-IsRounding amount polygon_pol = by_1e8 amount
round_amount-IsRounding amount coupon = by_1 amount
round_amount-IsRounding amount doge_doge = by_1e4 amount
round_amount-IsRounding amount stripe_usd = by_1 amount
round_amount-IsRounding amount eth_erc20_usdt = by_1e3 amount
round_amount-IsRounding amount tron_trc20_usdt = by_1e3 amount
round_amount-IsRounding amount bsc_bep20_usdt = by_1e3 amount
round_amount-IsRounding amount did_point = by_1 amount
round_amount-IsRounding amount padge_internal = by_1e4 amount
round_amount-IsRounding amount ckb_ccc = by_1 amount
round_amount-IsRounding amount (PayTokenId.unnamed n) = by_1 amount
