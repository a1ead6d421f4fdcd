-- ===== src/Unipay/Refunds.antt =====
-- unipay/refund.go: what the request for refunds names.
use das_register.Prelude.{
  ◌≤◌, ◌+◌, ◌*◌, ◌-◌, ◌↔◌, leb, arith, inl, inr, Among, Among-filter, filter-Among, ℕ, Bool, true,
  false, List, [], ◌∷◌, map, filter, ◌≡◌, refl, ◌==◌, ap, ◌∙◌, sym,
}
use das_register.Tables.Names.{Name}
use das_register.Tables.Order.{Order, uni_pay_false, uni_pay_coded}
use das_register.Tables.Pay.{
  PayInfo, OrderTxStatus, order_tx_status_coded, refund_status_coded, UniPayRefundStatus,
}
use mathlib.Core.Path.{subst}
use das_register.Dao.Store.{
  ◌>>=◌, ◌>>◌, Db, World, Call, Done, Exec, Result, ok, refund, for_each, exec, query, continued,
  when,
}
use das_register.Dao.Payments.{
  update_uni_pay_refund_status_to_default_for_not_uni_pay_order, update_refund_status_to_refund_ing,
}
use das_register.Dao.Queries.{get_un_refund_list, get_is_uni_pay_info_by_order_ids, is_refund}
use das_register.Unipay.Refund.{
  do_refund, reset_not_uni_pay, refund_entry, send_refund, is_uni_pay_order,
}

-- A world in which no statement will fail.
abbrev pub faultless : Db → List Call → World
faultless db sent = record { db = db; faults = []; sent = sent }

-- A run that ends well there, with no message sent.
abbrev EndsWell : List Call → Result Done × World → Type 0
EndsWell sent r = (db : Db) × (r ≡ (ok tt, faultless db sent))

when_ends :
    (b : Bool) (m : Exec Done) (db : Db) (sent : List Call)
    → EndsWell sent (m (faultless db sent))
    → EndsWell sent (when b m (faultless db sent))
when_ends true m db sent ends = ends
when_ends false m db sent ends = (db, refl)

reset_one :
    (orders : List Order) (v : PayInfo) (db : Db) (sent : List Call)
    → EndsWell sent (reset_not_uni_pay orders v (faultless db sent))
unfolding update_uni_pay_refund_status_to_default_for_not_uni_pay_order exec
reset_one orders v db sent =
    when_ends (is_uni_pay_order orders v == uni_pay_false)
      (update_uni_pay_refund_status_to_default_for_not_uni_pay_order v.hash v.order_id) db sent
      (_, refl)

reset_all :
    (orders : List Order) (xs : List PayInfo) (db : Db) (sent : List Call)
    → EndsWell sent (for_each (reset_not_uni_pay orders) xs (faultless db sent))
unfolding for_each
reset_all orders [] db sent = (db, refl)
reset_all orders (v ∷ xs) db sent =
    let (db1, e) = reset_one orders v db sent in
    let (db2, f) = reset_all orders xs db1 sent in
    (db2, ap (λ r. continued r (for_each (reset_not_uni_pay orders) xs)) e ∙ f)

sent_request :
    (accepted : Bool) (p : PayInfo) (ps : List PayInfo) (db : Db) (sent : List Call)
    → (send_refund accepted (p ∷ ps) (faultless db sent)).1.sent
      ≡ refund (map refund_entry (p ∷ ps)) ∷ sent
unfolding update_refund_status_to_refund_ing exec
sent_request true p ps db sent = refl
sent_request false p ps db sent = refl

-- The rest of the job, from the payments that it read.
abbrev request : Bool → List PayInfo → Exec Done
request accepted list = do
  orders ← get_is_uni_pay_info_by_order_ids (map (λ v. v.order_id) list)
  for_each (reset_not_uni_pay orders) list
  send_refund accepted list

after_reset :
    (accepted : Bool) (p : PayInfo) (ps : List PayInfo) (w : World) (sent : List Call)
    (r : Result Done × World)
    → EndsWell sent r
    → (((λ _. r) >> send_refund accepted (p ∷ ps)) w).1.sent
      ≡ refund (map refund_entry (p ∷ ps)) ∷ sent
after_reset accepted p ps w sent r (db, e) =
    ap (λ x. (((λ _. x) >> send_refund accepted (p ∷ ps)) w).1.sent) e
    ∙ sent_request accepted p ps db sent

requested :
    (accepted : Bool) (p : PayInfo) (ps : List PayInfo) (db : Db) (sent : List Call)
    → (request accepted (p ∷ ps) (faultless db sent)).1.sent
      ≡ refund (map refund_entry (p ∷ ps)) ∷ sent
unfolding get_is_uni_pay_info_by_order_ids query
requested accepted p ps db sent =
    after_reset accepted p ps (faultless db sent) sent _ (reset_all _ (p ∷ ps) db sent)

map-Among : {A B : Type 0} (f : A → B) (xs : List A) (x : A) → Among x xs → Among (f x) (map f xs)
map-Among f [] x m = absurd m
map-Among f (y ∷ xs) x (inl e) = inl (ap f e)
map-Among f (y ∷ xs) x (inr m) = inr (map-Among f xs x m)

Among-map :
    {A B : Type 0} (f : A → B) (xs : List A) (y : B)
    → Among y (map f xs)
    → (x : A) × Among x xs × (y ≡ f x)
Among-map f [] y m = absurd m
Among-map f (x ∷ xs) y (inl e) = (x, inl refl, e)
Among-map f (x ∷ xs) y (inr m) = let (z, among, e) = Among-map f xs y m in (z, inr among, e)

-- A confirmed payment of the last three days that waits for its refund by unipay.
abbrev pub Due : ℕ → PayInfo → Type 0
Due now p =
    (now ≤ p.timestamp + 3 * 86400000)
    × (p.status ≡ OrderTxStatus.confirm)
    × (p.uni_pay_refund_status ≡ UniPayRefundStatus.un_refund)

is_refund-Due :
    (now : ℕ) (p : PayInfo) → is_refund now UniPayRefundStatus.un_refund p ≡ true → Due now p
is_refund-Due now p e = (ground (arith, e), ground (arith, e), ground (arith, e))

Due-is_refund :
    (now : ℕ) (p : PayInfo) → Due now p → is_refund now UniPayRefundStatus.un_refund p ≡ true
Due-is_refund now p (recent, confirmed, waits) =
    let young : leb (now - 3 * 86400000) p.timestamp ≡ true = ground (arith, recent) in
    rw (young, confirmed, waits) refl

refund_of :
    (now : ℕ) (accepted : Bool) (db : Db) (sent : List Call) (list : List PayInfo) (p : PayInfo)
    → filter (is_refund now UniPayRefundStatus.un_refund) db.pays ≡ list
    → Among p list
    → (do_refund true now accepted (faultless db sent)).1.sent
      ≡ refund (map refund_entry list) ∷ sent
unfolding do_refund get_un_refund_list query get_is_uni_pay_info_by_order_ids
refund_of now accepted db sent [] p waiting m = absurd m
refund_of now accepted db sent (q ∷ qs) p waiting m =
    subst
      (λ list.
        (request accepted list (faultless db sent)).1.sent
        ≡ refund (map refund_entry (q ∷ qs)) ∷ sent)
      (sym waiting) (requested accepted q qs db sent)

pub do_refund-refund :
    (now : ℕ) (accepted : Bool) (db : Db) (sent : List Call) (due : PayInfo)
    → Among due db.pays
    → Due now due
    → (entries : List (Name × Name)) × ((do_refund true now accepted (faultless db sent)).1.sent
        ≡ refund entries ∷ sent)
      × ((e : Name × Name)
          → Among e entries
            ↔ ((p : PayInfo) × Among p db.pays × Due now p × (e ≡ (p.order_id, p.hash))))
do_refund-refund now accepted db sent due there is_due = (
  map refund_entry list,
  refund_of now accepted db sent list due refl
      (filter-Among _ db.pays due there (Due-is_refund now due is_due)),
  λ e. (
    λ among.
        let (p, listed, same) = Among-map refund_entry list e among in
        let (found, holds) = Among-filter _ db.pays p listed in
        (p, found, is_refund-Due now p holds, same),
    λ (p, found, p_due, same).
        subst (λ x. Among x (map refund_entry list)) (sym same)
          (map-Among refund_entry list p
            (filter-Among _ db.pays p found (Due-is_refund now p p_due))),
  ),
)
  where
    list : List PayInfo
    list = filter (is_refund now UniPayRefundStatus.un_refund) db.pays
