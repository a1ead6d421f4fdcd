-- ===== src/Samples/Shop.antt =====
-- A service with simple answers, requests to it, and the sites on which they are tried. Its decimals
-- are whole numbers.
use Prim.Native.Nat.{Ordering}
use Prim.Native.String.{String, compare}
use das_register.Prelude.{
  ℕ, ◌+◌, ◌-◌, ◌*◌, ◌/◌, ◌^◌, true, false, none, some, [], ◌∷◌, ltb, beq, nat_coded,
}
use das_register.Tables.Order.{Order, empty, encoded, no_content, TxStatus, RegisterStatus}
use das_register.Tables.Names.{DasAction, AccountCharSet, ckb_ckb, ckb_internal}
use das_register.Tables.Rest.{Coupon, five_byte, AccountInfo, AccountStatus}
use das_register.Dao.Store.{Db}
use das_register.Handle.Reply.{Site}
use das_register.Handle.Service.{Decimals, Config, Service, PriceConfig, UnipayOrder, Network, en}
use das_register.Handle.Search.{ReqAccountSearch}
use das_register.Handle.Register.{ReqOrderRegister, ReqOrderRegisterBase}
use das_register.Handle.InternalOrder.{ReqAccountRegister, mint_from_default}
use das_register.Handle.Change.{ReqOrderChange, ReqOrderRenew, ReqOrderPayHash}
use das_register.Handle.Place.{Draft}
use das_register.Samples.{sample_db, sample_world, unpaid}

abbrev pub whole_numbers : Decimals
whole_numbers = record {
  Num = ℕ;
  of_int = λ n. n;
  power = λ n. 10 ^ n;
  add = λ a b. a + b;
  sub = λ a b. a - b;
  mul = λ a b. a * b;
  div = λ a b. a / b;
  div_round = λ a b n. a / b;
  ceil = λ a. a;
  int_part = λ a. a;
  exceeds = λ a b. ltb b a;
  equals = λ a b. beq a b;
  stored = λ a. a;
  of_price = λ p. p;
}

abbrev shop_config : Config ℕ
shop_config = record {
  is_update = false;
  is_main_net = true;
  parser_url = 0;
  uni_pay_url = 0;
  coupon_encry_salt = 9;
  max_register_years = 20;
  account_min_length = 4;
  account_max_length = 42;
  open_account_min_length = 4;
  open_account_max_length = 9;
  premium = 0;
  discount = 0;
  stripe_premium_percentage = 0;
  stripe_premium_base = 0;
  inviter_whitelist = [];
  pay_address_map = λ n. elim n [ Network.ckb ↦ 77 | _ ↦ 0 ];
}

abbrev prices : PriceConfig
prices = record {
  account_price = λ n. some (5_000_000, 5_000_000);
  basic_capacity = λ args. some 0;
  prepared_fee_capacity = some 0;
}

abbrev pub at_unipay : UnipayOrder
at_unipay = record {
  order_id = 88;
  stripe_payment_intent_id = 0;
  contract_address = 0;
  client_secret = 0;
}

abbrev pub shop : Service
shop = record {
  decimals = whole_numbers;
  cfg = shop_config;
  now = 40_000_000_000_000;
  text = λ n. "abcde.bit";
  stripe_text = 1;
  to_lower = λ n. n;
  equal_fold = λ a b. beq a b;
  equal_fold_text = λ a b. elim (compare a b) [ Ordering.eq ↦ true | _ ↦ false ];
  is_number = λ n. true;
  account_id = λ n. n;
  name_hash = λ n. n;
  first_four_bytes = λ n. 0;
  black_hole_address = 99;
  coin_type_eth = 60;
  ckb_chain = 0;
  eth_chain = 1;
  tron_chain = 3;
  mixin_chain = 4;
  doge_chain = 7;
  webauthn_chain = 8;
  format_chain_type_address = λ key. some (1, key);
  hex_to_args = λ c a. some a;
  hex_to_script = λ c a. some a;
  hex_to_normal = λ c a. some a;
  account_char_set_list = λ n. none;
  char_type = λ n. some en;
  in_char_set = λ t c. true;
  is_char_type_diff = λ list. false;
  main_status = some 1;
  contract_status_ok = some true;
  is_latest = λ n. none;
  quote = some 1_000_000;
  price_config = some prices;
  cached_price_config = none;
  invited_discount = some 0;
  time_cell = some 1_700_000_000;
  lucky_number = some 10;
  cached_lucky_number = none;
  expiration_grace_period = some 90;
  account_chars = λ n. some 5;
  get_balance_cells = λ script amount. none;
  usd_rate_base = 1_000_000;
  percent_rate_base = 10_000;
  one_ckb = 100_000_000;
  default_args = 3;
  is_das_main_net = true;
  is_un_available = λ n. false;
  is_reserved = λ n. false;
  tokens =
      record { token_id = ckb_ckb; decimals = 8; price = 1 }
      ∷ record { token_id = ckb_internal; decimals = 8; price = 1 }
      ∷ [];
  create_unipay_order = λ token amount. some at_unipay;
  create_order_id = λ t a x c b n. 70;
  coupon_encry = λ code salt. code;
  set_nx_fails = λ code. false;
  del_fails = λ code. false;
  doge_amount = 0;
}

abbrev letter : String → AccountCharSet
letter c = record { char_set_name = 2; char = c }

abbrev pub asker : ReqAccountSearch
asker = record {
  key_info = 7;
  chain_type = 0;
  address = 0;
  account = 8;
  account_char_str = letter "a" ∷ letter "b" ∷ letter "c" ∷ letter "d" ∷ letter "e" ∷ [];
}

abbrev two_years : ReqOrderRegisterBase
two_years = record { register_years = 2; inviter_account = 0; channel_account = 0 }

abbrev pub register_request : ReqOrderRegister
register_request = record {
  search = asker;
  base = two_years;
  pay_token_id = ckb_ckb;
  pay_type = 0;
  coin_type = 0;
  cross_coin_type = 0;
  gift_card = 0;
}

-- The same account, asked for by another service.
abbrev pub mint_request : ReqAccountRegister
mint_request = record {
  search = asker;
  base = two_years;
  coin_type = 0;
  mint_from = mint_from_default;
}

abbrev pub card_request : ReqOrderRegister
card_request = record register_request {
  base = record two_years { register_years = 1 };
  gift_card = 33;
}

abbrev pub free_card : Coupon
free_card = record {
  id = 1;
  code = 33;
  coupon_type = five_byte;
  order_id = 0;
  use_at = 0;
  expired_at = 50_000_000_000;
  start_at = 0;
  is_check = 0;
}

-- Account 5 of the sample orders is asked for again.
abbrev pub change_request : ReqOrderChange
change_request = record {
  key_info = 7;
  account = 5;
  base = two_years;
  pay_token_id = ckb_ckb;
  pay_type = 0;
  coin_type = 0;
  cross_coin_type = 0;
}

abbrev pub renew_request : ReqOrderRenew
renew_request = record {
  key_info = 7;
  account = 4;
  pay_token_id = ckb_ckb;
  pay_type = 0;
  renew_years = 1;
}

abbrev pub pay_hash_request : ReqOrderPayHash
pay_hash_request = record { key_info = 7; account = 6; order_id = 11; pay_hash = 23 }

abbrev pub registered : AccountInfo
registered = record {
  id = 1;
  account_id = 4;
  account = 4;
  owner_chain_type = 1;
  owner = 7;
  status = AccountStatus.normal;
  expired_at = 50_000_000_000;
  confirm_proposal_hash = 0;
  parent_account_id = 0;
}

abbrev pub shop_db : Db
shop_db = record sample_db { coupons = free_card ∷ []; accounts = registered ∷ [] }

abbrev pub shop_site : Site
shop_site = record { world = record sample_world { db = shop_db }; locks = []; placed = [] }

-- An order of account 5 whose content has the characters asked for.
abbrev asked_again : Order
asked_again = record unpaid {
  content = encoded (record no_content { account_char_str = asker.account_char_str });
}

-- The same with that order alone, which waits for its payment.
abbrev pub waiting_site : Site
waiting_site = record shop_site {
  world = record sample_world { db = record shop_db { orders = asked_again ∷ [] } };
}

abbrev pub ckb_draft : Draft
ckb_draft = record {
  account_id = 8;
  account = 8;
  action = DasAction.apply_register;
  chain_type = 1;
  address = 7;
  pay_token_id = ckb_ckb;
  pay_type = 0;
  content = empty;
  pay_status = TxStatus.default;
  register_status = RegisterStatus.confirm_payment;
  coin_type = 0;
  cross_coin_type = 0;
}
