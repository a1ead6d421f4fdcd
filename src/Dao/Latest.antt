-- ===== src/Dao/Latest.antt =====
-- `ORDER BY order_status, register_status DESC, id DESC LIMIT 1` among open orders: none of them is
-- further on than the one that is found.
use mathlib.Core.Path.{subst}
use das_register.Prelude.{
  Bool-cases, inl, inr, ℕ, ◌≤◌, ◌<◌, Bool, true, some, List, [], ◌∷◌, ◌≡◌, refl, arith, filter, All,
  if◌then◌else◌,
}
use das_register.Tables.Order.{Order, OrderStatus, order_status_coded, register_status_coded}
use das_register.Dao.Queries.{comes_first, pick, first_order}

-- How far an order is, as the number of its register status.
abbrev pub progress : Order → ℕ
progress o = register_status_coded.code o.register_status

abbrev AtMost : ℕ → List Order → Type 0
AtMost n = All (λ o. progress o ≤ n)

abbrev Open : Order → Type 0
Open o = o.order_status ≡ OrderStatus.default

first_of_two :
    (o b : Order)
    → Open o
    → Open b
    → (progress b ≤ progress (if comes_first o b then o else b))
      × (progress o ≤ progress (if comes_first o b then o else b))
      × Open (if comes_first o b then o else b)
first_of_two o b o_open b_open = ground (arith, o_open, b_open)

pick-greatest :
    (b : Order) (os : List Order)
    → Open b
    → All Open os
    → (r : Order) × (pick (some b) os ≡ some r) × (progress b ≤ progress r) × AtMost (progress r) os
pick-greatest b [] b_open os_open = (b, refl, omega arith, tt)
pick-greatest b (o ∷ os) b_open (o_open, os_open) =
    let (b_le, o_le, is_open) = first_of_two o b o_open b_open in
    let (r, e, le, rest) = pick-greatest (if comes_first o b then o else b) os is_open os_open in
    (r, e, omega (arith, b_le, le), (omega (arith, o_le, le), rest))

module _ (p : Order → Bool) (opens : (o : Order) → p o ≡ true → Open o) where
  filter-Open : (xs : List Order) → All Open (filter p xs)
  filter-Open [] = tt
  filter-Open (x ∷ xs) = elim (Bool-cases (p x)) [
    | inl holds ↦ rw (holds) (opens x holds, filter-Open xs)
    | inr fails ↦ rw (fails) (filter-Open xs)
  ]

  abbrev Below : ℕ → List Order → Type 0
  Below n = All (λ o. p o ≡ true → progress o < n)

  filter-Below : (n : ℕ) (xs : List Order) → All (λ o. progress o < n) (filter p xs) → Below n xs
  filter-Below n [] h = tt
  filter-Below n (x ∷ xs) h = elim (Bool-cases (p x)) [
    | inl holds ↦
        let (first, rest) : (progress x < n) × All (λ o. progress o < n) (filter p xs) =
          subst (λ b. All (λ o. progress o < n) (if b then x ∷ filter p xs else filter p xs)) holds
            h in
        (λ _. first, filter-Below n xs rest)
    | inr fails ↦
        let rest : All (λ o. progress o < n) (filter p xs) =
          subst (λ b. All (λ o. progress o < n) (if b then x ∷ filter p xs else filter p xs)) fails
            h in
        (λ holds. cc (holds, fails), filter-Below n xs rest)
  ]

  AtMost-below : (n m : ℕ) (xs : List Order) → m < n → AtMost m xs → All (λ o. progress o < n) xs
  AtMost-below n m [] h all = tt
  AtMost-below n m (x ∷ xs) h (first, rest) = (omega (arith, first), AtMost-below n m xs h rest)

  first_below :
      (n : ℕ) (xs : List Order)
      → All Open xs
      → ((r : Order) → first_order xs ≡ some r → progress r < n)
      → All (λ o. progress o < n) xs
  first_below n [] opened h = tt
  first_below n (x ∷ xs) (x_open, xs_open) h =
      let (r, e, le, rest) = pick-greatest x xs x_open xs_open in
      (omega (arith, le, h r e), AtMost-below n (progress r) xs (h r e) rest)

  -- If the order found is below a status, so is every open order that was searched.
  pub first_order-Below :
      (n : ℕ) (xs : List Order)
      → ((r : Order) → first_order (filter p xs) ≡ some r → progress r < n)
      → Below n xs
  first_order-Below n xs h = filter-Below n xs (first_below n (filter p xs) (filter-Open xs) h)
