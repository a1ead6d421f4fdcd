-- ===== src/Handle/Sendable.antt =====
-- The orders of other services of the group, which need no payment.
use mathlib.Core.Path.{subst}
use das_register.Prelude.{true, ◌≡◌, refl, ◌∙◌, sym, ap, inl, inr, nat_coded}
use das_register.Tables.Names.{Name, DasAction, das_action_coded}
use das_register.Tables.Order.{Order, did_cell_no}
use das_register.Dao.Store.{exec-Outcome}
use das_register.Dao.Rows.{insert_order}
use das_register.Dao.Orders.{create_order}
use das_register.Dao.Queries.{needs_send_pay}
use das_register.Handle.Reply.{done, Site, error500}
use das_register.Handle.Service.{Service}
use das_register.Handle.Search.{ReqAccountSearch}
use das_register.Handle.Place.{own_order}
use das_register.Handle.Register.{ReqOrderRegisterBase}
use das_register.Handle.InternalOrder.{
  ReqAccountRegister, with_chars, found_at, store_internal_order, internal_register_draft,
  do_internal_register_order, do_account_register,
}
use das_register.Handle.Reads.{
  check_system_upgrade-Stays, check_latest-Stays, check_order_info-Stays, check_register_able-Stays,
  with_chars-Stays,
}
use das_register.Handle.Errors.{SameDb, SameDb-SiteOrder}
use das_register.Handle.Done.{
  Comes, also-Comes, branch-Comes, reply-Comes, store-Comes, after_guard, after_option, after_step,
  after_check,
}
use das_register.Handle.Free.{Free, check_register_able-Free}
use das_register.Handle.Stored.{Stored, Stored-before, insert_order-found}

store_internal_order-Stored :
    (o : Order) (s : Site) (id : Name) (t : Site)
    → Comes (store_internal_order o) s id t
    → Stored s t o × (o.order_id ≡ id)
unfolding store_internal_order create_order
store_internal_order-Stored o s id t e =
    let (u, s1, stored, e1) = also-Comes _ _ s id t e in
    let (answered, same) = reply-Comes o.order_id id s1 t e1 in
    let (does, _) =
      store-Comes (insert_order o) error500 (create_order o) s u s1
        (exec-Outcome (insert_order o) s.world) stored in
    let (fresh, grown, found) = insert_order-found o s.world.db s1.world.db does in
    (
      subst (λ x. Stored s x o) same (record { fresh = fresh; grown = grown; found = found }),
      answered,
    )

with_chars-account :
    (v : Service) (search : ReqAccountSearch) (s : Site) (a : ReqAccountSearch) (t : Site)
    → Comes (with_chars v search) s a t
    → search.account ≡ a.account
unfolding with_chars
with_chars-account v search s a t e = elim (branch-Comes _ _ _ s a t e) [
  | inl (_, looked_up) ↦
      let (chars, _, e1) = after_option _ _ _ s a t looked_up in
      ap (λ x. x.account) (reply-Comes _ a s t e1).0
  | inr (_, given) ↦ ap (λ x. x.account) (reply-Comes search a s t given).0
]

-- An order that is open and counts as paid was stored for the account, under the id of the answer.
abbrev pub Sendable : DasAction → Name → Site → Name → Site → Type 0
Sendable action account_id s id t =
    (o : Order) × Stored s t o
    × (o.order_id ≡ id)
    × (o.account_id ≡ account_id)
    × (needs_send_pay action did_cell_no o ≡ true)

do_internal_register_order-Sendable :
    (v : Service) (req : ReqAccountRegister) (base : ReqOrderRegisterBase) (s : Site) (id : Name)
    (t : Site)
    → Comes (do_internal_register_order v req base) s id t
    → Sendable DasAction.apply_register (v.account_id req.search.account) s id t
unfolding do_internal_register_order own_order internal_register_draft
do_internal_register_order-Sendable v req base s id t e =
    let (_, _, e1) = after_option _ _ _ s id t e in
    let (a, _, e2) = after_option _ _ _ s id t e1 in
    let (_, e3) = after_guard _ _ _ s id t e2 in
    let o = own_order v (internal_register_draft v req base a) (v.stored a.total_pay_token) in
    let (stored, id_eq) = store_internal_order-Stored o s id t e3 in (o, stored, id_eq, refl, refl)

Sendable-before :
    (action : DasAction) (account_id : Name) (s s' : Site) (id : Name) (t : Site)
    → s'.world.db ≡ s.world.db
    → Sendable action account_id s' id t
    → Sendable action account_id s id t
Sendable-before action account_id s s' id t same (o, stored, id_eq, account_eq, sent) =
    (o, Stored-before s s' t o same stored, id_eq, account_eq, sent)

-- A request of another service to register an account that is done is for an account that no row holds
-- as registered and no open order has pre-registered; and it has added an order under a new id, which
-- finds it, that is among those for which the transaction to apply is to be sent, without a payment.
pub do_account_register-Sendable :
    (v : Service) (req : ReqAccountRegister) (s : Site) (id : Name) (t : Site)
    → do_account_register v req s ≡ (done id, t)
    → Free v req.search.account s.world.db
      × Sendable DasAction.apply_register (v.account_id req.search.account) s id t
unfolding do_account_register
do_account_register-Sendable v req s id t e =
    let (_, e1) = after_guard _ _ _ s id t e in
    let (search, s2, same2, chars, e2) =
      after_step SameDb _ _ s id t (with_chars-Stays SameDb SameDb-SiteOrder v req.search) e1 in
    let account_eq = with_chars-account v req.search s search s2 chars in
    let (addr, _, e3) = after_option _ _ _ s2 id t e2 in
    let (_, e4) = after_guard _ _ _ s2 id t e3 in
    let (_, s5, same5, _, e5) =
      after_check SameDb _ _ s2 id t (check_system_upgrade-Stays SameDb SameDb-SiteOrder v) e4 in
    let (_, s6, same6, _, e6) =
      after_check SameDb _ _ s5 id t (check_latest-Stays SameDb SameDb-SiteOrder v) e5 in
    let (base, s7, same7, _, e7) =
      after_step SameDb _ _ s6 id t (check_order_info-Stays SameDb SameDb-SiteOrder v 0 0 req.base)
        e6 in
    let whole = found_at req search addr.0 addr.1 in
    let (u, s8, same8, able, e8) =
      after_check SameDb _ _ s7 id t
        (check_register_able-Stays SameDb SameDb-SiteOrder v whole.search) e7 in
    let before : s7.world.db ≡ s.world.db = same7 ∙ (same6 ∙ (same5 ∙ same2)) in
    let free : Free v search.account s.world.db =
      subst (λ d. Free v search.account d) before
        (check_register_able-Free v whole.search s7 u s8 able) in
    let sent =
      Sendable-before DasAction.apply_register (v.account_id search.account) s s8 id t
        (same8 ∙ before) (do_internal_register_order-Sendable v whole base s8 id t e8) in
    subst (λ n. Free v n s.world.db × Sendable DasAction.apply_register (v.account_id n) s id t)
      (sym account_eq) (free, sent)
