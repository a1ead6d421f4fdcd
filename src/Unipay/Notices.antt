-- ===== src/Unipay/Notices.antt =====
-- http_server/handle/unipay_notice.go: the answer to a notice.
use das_register.Prelude.{
  Bool, true, false, List, [], ◌∷◌, ◌≡◌, refl, ◌==◌, nat_coded, if◌then◌else◌,
}
use das_register.Tables.Names.{Name}
use das_register.Dao.Store.{Result, ◌>>◌, pure, err, Done, Exec, World, ok, log_error, for_each}
use das_register.Unipay.Confirm.{Clock, EventInfo, ApiCode, do_uni_pay_notice, handle_event}

logged_all :
    {A : Type 0} (body : A → Exec Done) (xs : List A) (w : World)
    → (for_each (λ x. log_error (body x)) xs w).0 ≡ ok tt
unfolding for_each
logged_all body [] w = refl
logged_all body (x ∷ xs) w = logged_all body xs (body x w).1

bound_ok :
    (w : World) (r : Result Done × World)
    → r.0 ≡ ok tt
    → (((λ _. r) >> pure ApiCode.success) w).0 ≡ ok ApiCode.success
bound_ok w (ok _, w') e = refl
bound_ok w (err _, w') e = cc e

answered :
    (clock : Clock) (svr business_id : Name) (list : List EventInfo) (w : World) (b : Bool)
    → business_id == svr ≡ b
    → (do_uni_pay_notice clock svr business_id list w).0
      ≡ ok (if b then ApiCode.success else ApiCode.params_invalid)
unfolding do_uni_pay_notice
answered clock svr business_id list w true e = rw e (
    bound_ok w (for_each (λ v. log_error (handle_event clock v.event_type v)) list w)
      (logged_all (λ v. handle_event clock v.event_type v) list w))
answered clock svr business_id list w false e = rw e refl

-- The answer to a notice depends on the business id alone: it is a success for the service's own,
-- whatever the events are and whatever fails while they are handled, and else a refusal; it is never
-- an error.
pub notice-answer :
    (clock : Clock) (svr business_id : Name) (list : List EventInfo) (w : World)
    → (do_uni_pay_notice clock svr business_id list w).0
      ≡ ok (if business_id == svr then ApiCode.success else ApiCode.params_invalid)
notice-answer clock svr business_id list w =
    answered clock svr business_id list w (business_id == svr) refl
