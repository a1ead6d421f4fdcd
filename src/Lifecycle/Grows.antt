-- ===== src/Lifecycle/Grows.antt =====
-- How a table with a unique key changes: its rows stay in place, and new ones come with new keys.
use das_register.Prelude.{
  ℕ, Bool, true, false, none, some, List, [], ◌∷◌, ◌++◌, map, ◌≡◌, refl, ap, ◌==◌, nat_coded, All,
  Extends, Extends-refl, Extends-trans, Extends-append, Extends-update_where, update_where, find?,
  if◌then◌else◌, arith,
}

-- No number occurs twice.
abbrev pub Distinct : List ℕ → Type 0
Distinct [] = Unit
Distinct (k ∷ ks) = All (λ j. j == k ≡ false) ks × Distinct ks

other_way : (j k : ℕ) → j == k ≡ false → k == j ≡ false
other_way j k h = ground (arith, h)

All-snoc :
    (k j : ℕ) (ks : List ℕ)
    → All (λ i. i == k ≡ false) ks
    → j == k ≡ false
    → All (λ i. i == k ≡ false) (ks ++ j ∷ [])
All-snoc k j [] h e = (e, tt)
All-snoc k j (i ∷ ks) (p, h) e = (p, All-snoc k j ks h e)

Distinct-snoc :
    (k : ℕ) (ks : List ℕ) → All (λ j. j == k ≡ false) ks → Distinct ks → Distinct (ks ++ k ∷ [])
Distinct-snoc k [] h d = (tt, tt)
Distinct-snoc k (j ∷ ks) (e, h) (a, d) =
    (All-snoc j k ks a (other_way j k e), Distinct-snoc k ks h d)

module _ {A : Type 0} (key : A → ℕ) where
  map-snoc : (x : A) (xs : List A) → map key (xs ++ x ∷ []) ≡ map key xs ++ key x ∷ []
  map-snoc x [] = refl
  map-snoc x (y ∷ xs) = ap (λ r. key y ∷ r) (map-snoc x xs)

  key-kept :
      (b : Bool) (f : A → A) (x : A)
      → (b ≡ true → key (f x) ≡ key x)
      → key (if b then f x else x) ≡ key x
  key-kept true f x h = h refl
  key-kept false f x h = refl

  keys-update_where :
      (p : A → Bool) (f : A → A)
      → ((x : A) → p x ≡ true → key (f x) ≡ key x)
      → (xs : List A) → map key (update_where p f xs) ≡ map key xs
  keys-update_where p f same [] = refl
  keys-update_where p f same (x ∷ xs) =
      cc (key-kept (p x) f x (same x), keys-update_where p f same xs)

  -- A key that a search does not find is new.
  first-new :
      (k : ℕ) (x : A) (xs : List A)
      → elim (find? (λ y. key y == k) (x ∷ xs)) [ none ↦ false | some _ ↦ true ] ≡ false
      → (key x == k ≡ false)
        × (elim (find? (λ y. key y == k) xs) [ none ↦ false | some _ ↦ true ] ≡ false)
  first-new k x xs h = (ground (arith, h), ground (arith, h))

  pub not_found-new :
      (k : ℕ) (xs : List A)
      → elim (find? (λ y. key y == k) xs) [ none ↦ false | some _ ↦ true ] ≡ false
      → All (λ j. j == k ≡ false) (map key xs)
  not_found-new k [] h = tt
  not_found-new k (x ∷ xs) h = let (e, rest) = first-new k x xs h in (e, not_found-new k xs rest)

module _ {A : Type 0} (key : A → ℕ) (R : A → A → Type 0) where
  abbrev pub Grows : List A → List A → Type 0
  Grows xs ys = Extends R xs ys × (Distinct (map key xs) → Distinct (map key ys))

  pub Grows-refl : ((x : A) → R x x) → (xs : List A) → Grows xs xs
  Grows-refl same xs = (Extends-refl R same xs, λ d. d)

  pub Grows-trans :
      ((x y z : A) → R x y → R y z → R x z)
      → (xs ys zs : List A) → Grows xs ys
      → Grows ys zs
      → Grows xs zs
  Grows-trans join xs ys zs (e, d) (e', d') = (Extends-trans R join xs ys zs e e', λ x. d' (d x))

  pub Grows-append :
      ((x : A) → R x x)
      → (xs : List A) (x : A) → All (λ j. j == key x ≡ false) (map key xs)
      → Grows xs (xs ++ x ∷ [])
  Grows-append same xs x new = (
    Extends-append R same xs (x ∷ []),
    λ d. rw (map-snoc key x xs) (Distinct-snoc (key x) (map key xs) new d),
  )

  pub Grows-update_where :
      ((x y : A) → R x y → key y ≡ key x)
      → (p : A → Bool) (f : A → A) → ((x : A) → R x x)
      → ((x : A) → p x ≡ true → R x (f x))
      → (xs : List A) → Grows xs (update_where p f xs)
  Grows-update_where kept p f same step xs = (
    Extends-update_where R p f same step xs,
    λ d. rw (keys-update_where key p f (λ x e. kept x (f x) (step x e)) xs) d,
  )
