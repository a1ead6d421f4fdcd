-- ===== src/Unipay/Counts.antt =====
-- unipay/register_info.go: the counts of the orders under way.
use das_register.Prelude.{ℕ, List, [], ◌∷◌, ◌≡◌, refl, ◌∙◌}
use das_register.Tables.Order.{RegisterStatus}
use das_register.Unipay.Refund.{
  RegisterStatusCount, RegisterNums, count_row, count_rows, register_nums,
}

count_row-pro_num :
    (s : RegisterStatus) (n : ℕ) (r : RegisterNums) → (count_row s n r).pro_num ≡ r.pro_num
count_row-pro_num RegisterStatus.default n r = refl
count_row-pro_num RegisterStatus.confirm_payment n r = refl
count_row-pro_num RegisterStatus.apply_register n r = refl
count_row-pro_num RegisterStatus.pre_register n r = refl
count_row-pro_num RegisterStatus.proposal n r = refl
count_row-pro_num RegisterStatus.confirm_proposal n r = refl
count_row-pro_num RegisterStatus.registered n r = refl

count_rows-pro_num :
    (r : RegisterNums) (list : List RegisterStatusCount) → (count_rows r list).pro_num ≡ r.pro_num
count_rows-pro_num r [] = refl
count_rows-pro_num r (v ∷ vs) =
    count_rows-pro_num (count_row v.register_status v.count_num r) vs
    ∙ count_row-pro_num v.register_status v.count_num r

-- The number of the orders in the proposal stage that `doRegisterInfo` reports is zero, whatever the
-- orders are.
pub register_nums-pro_num : (list : List RegisterStatusCount) → (register_nums list).pro_num ≡ 0
unfolding register_nums
register_nums-pro_num list = count_rows-pro_num _ list
