-- ===== src/Dao/Others.antt =====
-- dao/t_coupon.go, dao/t_register_pending_info.go and dao/t_block_parser_info.go. The rows of
-- `t_block_parser_info` are those of the parser `ParserTypeDAS`, the only one of the service.
use das_register.Prelude.{
  ℕ, Bool, true, false, Option, none, some, List, [], ◌∷◌, ◌++◌, not, ◌&&◌, leb, ltb, contains,
  filter, find?, take, nat_coded, ◌==◌, if◌then◌else◌,
}
use das_register.Tables.Names.{Name, DasAction, das_action_coded}
use das_register.Tables.Order.{Order}
use das_register.Tables.Rest.{Coupon, PendingInfo, PendingStatus, pending_status_coded, BlockInfo}
use das_register.Dao.Store.{Done, Exec, Statement, exec, query}
use das_register.Dao.Rows.{update_coupons, update_pendings}

abbrev code_used : Coupon → List Coupon → Bool
code_used c rows = elim (find? (λ x. x.code == c.code) rows) [ none ↦ false | some _ ↦ true ]

-- The unique key `code_unique`: one duplicate refuses the whole insertion.
abbrev insert_coupons : List Coupon → List Coupon → Option (List Coupon)
insert_coupons [] rows = some rows
insert_coupons (c ∷ cs) rows =
    let rest = insert_coupons cs (rows ++ c ∷ []) in if code_used c rows then none else rest

abbrev coupon_statement : List Coupon → Statement
coupon_statement [] db = none
coupon_statement (c ∷ cs) db = elim (insert_coupons (c ∷ cs) db.coupons) [
  | none ↦ none
  | some rows ↦ some (record db { coupons = rows })
]

unfoldable create_coupon : List Coupon → Exec Done
create_coupon list = exec (coupon_statement list)

unfoldable pub get_coupon_by_code : Name → Exec (Option Coupon)
get_coupon_by_code code = query (λ db. find? (λ c. c.code == code) db.coupons)

-- The join with the orders: one row for each coupon that names an order and is not checked.
abbrev orders_of : List Coupon → List Order → List Order
orders_of [] orders = []
orders_of (c ∷ cs) orders =
    (if not (c.order_id == 0) && c.is_check == 0
      then filter (λ o. o.order_id == c.order_id) orders
      else [])
    ++ orders_of cs orders

unfoldable pub get_used_coupon_not_checked : Exec (List Order)
get_used_coupon_not_checked = query (λ db. orders_of db.coupons db.orders)

unfoldable pub reset_coupon : List Name → Exec Done
reset_coupon order_ids = exec (
    update_coupons (λ c. contains c.order_id order_ids && c.is_check == 0)
      (λ c. record c { order_id = 0; use_at = 0 }))

unfoldable pub mark_checked : List Name → Exec Done
mark_checked order_ids = exec (
    update_coupons (λ c. contains c.order_id order_ids && c.is_check == 0)
      (λ c. record c { is_check = 1 }))

abbrev is_pending : PendingInfo → Bool
is_pending p = p.block_number == 0 && p.status == PendingStatus.pending

unfoldable pub get_pending_list : ℕ → Exec (List PendingInfo)
get_pending_list limit = query (λ db. take limit (filter is_pending db.pendings))

unfoldable pub update_pending_to_confirm : ℕ → ℕ → ℕ → Exec Done
update_pending_to_confirm id block_number block_timestamp = exec (
    update_pendings (λ p. p.id == id)
      (λ p. record p {
        block_number = block_number;
        status = PendingStatus.confirm;
        block_timestamp = block_timestamp;
      }))

unfoldable pub update_pending_to_rejected : List ℕ → Exec Done
update_pending_to_rejected rejected_ids = exec (
    update_pendings (λ p. is_pending p && contains p.id rejected_ids)
      (λ p. record p { status = PendingStatus.rejected }))

-- `start` and `end_` are `now - 24h` and `now`, in milliseconds.
unfoldable pub search_maybe_rejected_pending : ℕ → ℕ → Exec (List PendingInfo)
search_maybe_rejected_pending start end_ = query (λ db. take 100 (
    filter (λ p. is_pending p && ltb start p.block_timestamp && ltb p.block_timestamp end_)
      db.pendings))

unfoldable pub update_pending_status_to_confirm : DasAction → Name → ℕ → ℕ → Exec Done
update_pending_status_to_confirm action outpoint block_number block_timestamp = exec (
    update_pendings (λ p. p.action == action && p.outpoint == outpoint)
      (λ p. record p {
        block_number = block_number;
        block_timestamp = block_timestamp;
        status = PendingStatus.confirm;
      }))

-- The row with the greatest number; rows have distinct numbers.
abbrev latest_block : List BlockInfo → Option BlockInfo
latest_block [] = none
latest_block (b ∷ bs) = elim (latest_block bs) [
  | none ↦ some b
  | some c ↦ if leb c.block_number b.block_number then some b else some c
]

unfoldable pub find_block_info : Exec (Option BlockInfo)
find_block_info = query (λ db. latest_block db.blocks)

abbrev pub block_at : ℕ → List BlockInfo → Option BlockInfo
block_at n rows = find? (λ b. b.block_number == n) rows

unfoldable pub find_block_info_by_block_number : ℕ → Exec (Option BlockInfo)
find_block_info_by_block_number n = query (λ db. block_at n db.blocks)

-- The unique key `uk_parser_number`: the hashes of a number already there are replaced.
abbrev put_block : BlockInfo → List BlockInfo → List BlockInfo
put_block b [] = b ∷ []
put_block b (c ∷ cs) = if c.block_number == b.block_number then b ∷ cs else c ∷ put_block b cs

unfoldable pub create_block_info : ℕ → Name → Name → Exec Done
create_block_info number block_hash parent_hash = exec (λ db. some (record db {
  blocks =
      put_block
        (record { block_number = number; block_hash = block_hash; parent_hash = parent_hash })
        db.blocks;
}))

unfoldable pub delete_block_info : ℕ → Exec Done
delete_block_info number =
    exec
      (λ db. some (record db { blocks = filter (λ b. not (ltb b.block_number number)) db.blocks }))
