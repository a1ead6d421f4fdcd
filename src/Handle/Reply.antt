-- ===== src/Handle/Reply.antt =====
-- How a handler of http_server/handle answers: `apiResp` holds a code, and the callers of each step
-- return when it is not `ApiCodeSuccess`. The texts that go with the codes, and the errors that are
-- returned to be logged, are left out.
use das_register.Prelude.{Bool, Option, none, some, List, nat_coded, if◌then◌else◌}
use das_register.Tables.Names.{Name}
use das_register.Dao.Store.{World, Done, Exec, Result, ok, err}

-- `api_code.ApiCode`, the codes that the handlers use.
pub data ApiCode : Type 0 where
  params_invalid db_error error500 system_upgrade sync_block_number operation_frequent
        inviter_account_not_exist on_cross un_available_account reserved_account
        not_open_for_registration account_already_register account_contains_invalid_char
        account_len_invalid account_not_exist after_grace_period order_not_exist order_paid
        coupon_invalid coupon_used coupon_unopen rejected_out_point not_enough_change
        insufficient_balance :
      ApiCode

pub data Reply (A : Type 0) : Type 0 where
  done : A → Reply A
  rejected : ApiCode → Reply A

-- What a handler runs on: the database, the gift cards that are locked in redis, and the ids of the
-- orders that were created at unipay, the last one first.
pub record Site : Type 0 where
  pub world : World
  pub locks : List Name
  pub placed : List Name

abbrev pub Handler : Type 0 → Type 0
Handler A = Site → Reply A × Site

module _ {A : Type 0} where
  unfoldable pub reply : A → Handler A
  reply a s = (done a, s)

  unfoldable pub reject : ApiCode → Handler A
  reject code s = (rejected code, s)

  unfoldable pub from_option : Option A → ApiCode → Handler A
  from_option none code s = (rejected code, s)
  from_option (some a) code s = (done a, s)

  -- `if b { ... } else { ... }`
  unfoldable pub branch : Bool → Handler A → Handler A → Handler A
  branch b m k s = if b then m s else k s

infixl 5 ◌>>=◌ ◌>>◌
unfoldable pub ◌>>=◌ : {A B : Type 0} → Handler A → (A → Handler B) → Handler B
◌>>=◌ m f s = let (r, s') = m s in elim r [ done a ↦ f a s' | rejected code ↦ (rejected code, s') ]

unfoldable pub ◌>>◌ : {A B : Type 0} → Handler A → Handler B → Handler B
unfolding ◌>>=◌
m >> k = m >>= λ _. k

abbrev answered : {A : Type 0} → ApiCode → Site → Result A × World → Reply A × Site
answered code s (ok a, w) = (done a, record s { world = w })
answered code s (err e, w) = (rejected code, record s { world = w })

-- A call of the database whose error is answered with a code.
unfoldable pub from_dao : {A : Type 0} → ApiCode → Exec A → Handler A
from_dao code m s = answered code s (m s.world)

-- `if !ok { apiResp.ApiRespErr(code, ...); return }`
unfoldable pub guard : Bool → ApiCode → Handler Done
guard b code s = if b then (done tt, s) else (rejected code, s)
