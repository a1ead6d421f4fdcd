-- ===== src/Handle/Service.antt =====
-- What the handlers take from outside: the configuration, das-lib and the node behind it, unipay,
-- redis, the libraries for decimals and texts, and the clock.
use Prim.Native.String.{String}
use das_register.Prelude.{ℕ, ◌/◌, Bool, Option, List}
use das_register.Tables.Names.{Name, ChainType, PayTokenId, DasAction, AccountCharSet}
use das_register.Tables.Order.{OrderType}
use das_register.Unipay.Token.{TokenPriceInfo}

-- shopspring/decimal. `exceeds a b` is `a.Cmp(b) == 1`, `equals a b` is `a.Cmp(b) == 0`, `power n` is
-- `New(1, n)`, and `stored a` is the number that a column or the JSON of an order holds.
pub record Decimals : Type 1 where
  pub Num : Type 0
  pub of_int : ℕ → Num
  pub power : ℕ → Num
  pub add : Num → Num → Num
  pub sub : Num → Num → Num
  pub mul : Num → Num → Num
  pub div : Num → Num → Num
  pub div_round : Num → Num → ℕ → Num
  pub ceil : Num → Num
  pub int_part : Num → ℕ
  pub exceeds : Num → Num → Bool
  pub equals : Num → Num → Bool
  pub stored : Num → ℕ
  -- the price of a token, which the table of prices keeps in a unit of its own
  pub of_price : ℕ → Num

-- The sets of characters, by the constants `common.AccountCharType...`
pub data CharType : Type 0 where
  emoji digit en ja ru tr vi th ko : CharType

-- The errors of `GetBalanceCells` that `checkBalanceErr` tells apart.
pub data BalanceError : Type 0 where
  rejected_out_point not_enough_change insufficient_funds unnamed : BalanceError

-- What the price and account config cells answer: the prices of an account's length, new and renewed,
-- the basic capacity of an owner's lock, and the fee that is prepared.
pub record PriceConfig : Type 0 where
  pub account_price : ℕ → Option (ℕ × ℕ)
  pub basic_capacity : Name → Option ℕ
  pub prepared_fee_capacity : Option ℕ

-- `unipay.RespOrderCreate`
pub record UnipayOrder : Type 0 where
  pub order_id : Name
  pub stripe_payment_intent_id : Name
  pub contract_address : Name
  pub client_secret : Name

-- The keys of `PayAddressMap`.
pub data Network : Type 0 where
  eth bsc polygon tron ckb doge did_point : Network

-- `config.Cfg`, the entries that the handlers read.
pub record Config (Num : Type 0) : Type 0 where
  pub is_update : Bool
  pub is_main_net : Bool
  pub parser_url : Name
  pub uni_pay_url : Name
  pub coupon_encry_salt : Name
  pub max_register_years : ℕ
  pub account_min_length : ℕ
  pub account_max_length : ℕ
  pub open_account_min_length : ℕ
  pub open_account_max_length : ℕ
  pub premium : Num
  pub discount : Num
  pub stripe_premium_percentage : Num
  pub stripe_premium_base : Num
  pub inviter_whitelist : List Name
  pub pay_address_map : Network → Name

pub record Service : Type 1 where
  pub decimals : Decimals
  pub open decimals use *
  pub cfg : Config decimals.Num
  -- the clock, in milliseconds
  pub now : ℕ
  -- the Go library on texts: `text n` is the string that `n` stands for
  pub text : Name → String
  -- the text "stripe" is the number `suc stripe_text`, as it is not empty
  pub stripe_text : ℕ
  pub to_lower : Name → Name
  pub equal_fold : Name → Name → Bool
  pub equal_fold_text : String → String → Bool
  pub is_number : Name → Bool
  -- das-lib: ids, addresses and sets of characters
  pub account_id : Name → Name
  pub name_hash : Name → Name
  pub first_four_bytes : Name → ℕ
  pub black_hole_address : Name
  pub coin_type_eth : Name
  pub ckb_chain : ChainType
  pub eth_chain : ChainType
  pub tron_chain : ChainType
  pub mixin_chain : ChainType
  pub doge_chain : ChainType
  pub webauthn_chain : ChainType
  pub format_chain_type_address : Name → Option (ChainType × Name)
  pub hex_to_args : ChainType → Name → Option Name
  pub hex_to_script : ChainType → Name → Option Name
  pub hex_to_normal : ChainType → Name → Option Name
  pub account_char_set_list : Name → Option (List AccountCharSet)
  pub char_type : ℕ → Option CharType
  pub in_char_set : CharType → String → Bool
  pub is_char_type_diff : List AccountCharSet → Bool
  -- the node: config cells, the cells of time and quote, balances
  pub main_status : Option ℕ
  pub contract_status_ok : Option Bool
  pub is_latest : ℕ → Option Bool
  pub quote : Option ℕ
  pub price_config : Option PriceConfig
  pub cached_price_config : Option PriceConfig
  pub invited_discount : Option ℕ
  pub time_cell : Option ℕ
  pub lucky_number : Option ℕ
  pub cached_lucky_number : Option ℕ
  pub expiration_grace_period : Option ℕ
  pub account_chars : Name → Option ℕ
  pub get_balance_cells : Name → ℕ → Option BalanceError
  pub usd_rate_base : ℕ
  pub percent_rate_base : ℕ
  pub one_ckb : ℕ
  pub default_args : Name
  pub is_das_main_net : Bool
  -- the lists of accounts that cannot be registered, by the hashes of their names
  pub is_un_available : Name → Bool
  pub is_reserved : Name → Bool
  -- prices, unipay, redis, md5, sha256 and chance
  pub tokens : List TokenPriceInfo
  pub create_unipay_order : PayTokenId → ℕ → Option UnipayOrder
  pub create_order_id : OrderType → Name → DasAction → ChainType → Name → ℕ → Name
  pub coupon_encry : Name → Name → Name
  pub set_nx_fails : Name → Bool
  pub del_fails : Name → Bool
  pub doge_amount : ℕ

-- `time.Now().Unix()`
abbrev pub seconds : Service → ℕ
seconds v = v.now / 1000
