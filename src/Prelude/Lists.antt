-- ===== src/Prelude/Lists.antt =====
-- Lists over the native numbers, and the shapes that a table's rows go through: a condition picks
-- rows, an update maps them, an insertion appends them.
use Prim.Native.Nat.{ℕ, zero, suc}
use mathlib.Core.Path.{◌≡◌, refl, sym, subst}
use mathlib.Core.Logic.{◌⊎◌, inl, inr}
use mathlib.Core.Bool.{Bool, true, false, not, ◌||◌}
use mathlib.Core.Option.{Option, none, some}
use mathlib.Core.List.{List, [], ◌∷◌, ◌++◌, map}
use das_register.Prelude.Tests.{nat_coded, ◌==◌, if◌then◌else◌}

module _ {ℓ} {A : Type ℓ} where
  abbrev pub length : List A → ℕ
  length [] = 0
  length (x ∷ xs) = suc (length xs)

  abbrev pub take : ℕ → List A → List A
  take zero xs = []
  take (suc n) [] = []
  take (suc n) (x ∷ xs) = x ∷ take n xs

  abbrev pub filter : (A → Bool) → List A → List A
  filter p [] = []
  filter p (x ∷ xs) = let rest = filter p xs in if p x then x ∷ rest else rest

  abbrev pub find? : (A → Bool) → List A → Option A
  find? p [] = none
  find? p (x ∷ xs) = let rest = find? p xs in if p x then some x else rest

  -- UPDATE ... WHERE: the rows that meet the condition are changed in place.
  abbrev pub update_where : (A → Bool) → (A → A) → List A → List A
  update_where p f = map (λ x. if p x then f x else x)

-- x IN (xs)
abbrev pub contains : ℕ → List ℕ → Bool
contains x [] = false
contains x (y ∷ ys) = (x == y) || contains x ys

-- x NOT IN (xs). gorm writes an empty list as NULL, and no value is outside of that.
abbrev pub not_in : ℕ → List ℕ → Bool
not_in x [] = false
not_in x (y ∷ ys) = not (contains x (y ∷ ys))

module _ {ℓ κ} {A : Type ℓ} (P : A → Type κ) where
  -- Every element has the property.
  abbrev pub All : List A → Type κ
  All [] = Unit
  All (x ∷ xs) = P x × All xs

module _ {ℓ} {A : Type ℓ} (R : A → A → Type 0) where
  -- The second list continues the first: each row of the first is still at its place, related to
  -- what it was, and rows may have been appended.
  abbrev pub Extends : List A → List A → Type 0
  Extends [] ys = Unit
  Extends (x ∷ xs) [] = ⊥
  Extends (x ∷ xs) (y ∷ ys) = R x y × Extends xs ys

  pub Extends-map : (f : A → A) → ((x : A) → R x (f x)) → (xs : List A) → Extends xs (map f xs)
  Extends-map f step [] = tt
  Extends-map f step (x ∷ xs) = (step x, Extends-map f step xs)

  conditional :
      (b : Bool) (f : A → A) (x : A) → R x x → (b ≡ true → R x (f x)) → R x (if b then f x else x)
  conditional true f x same step = step refl
  conditional false f x same step = same

  pub Extends-update_where :
      (p : A → Bool) (f : A → A)
      → ((x : A) → R x x)
      → ((x : A) → p x ≡ true → R x (f x))
      → (xs : List A) → Extends xs (update_where p f xs)
  Extends-update_where p f same step xs =
      Extends-map (λ x. if p x then f x else x) (λ x. conditional (p x) f x (same x) (step x)) xs

  pub Extends-append : ((x : A) → R x x) → (xs ys : List A) → Extends xs (xs ++ ys)
  Extends-append same [] ys = tt
  Extends-append same (x ∷ xs) ys = (same x, Extends-append same xs ys)

  pub Extends-refl : ((x : A) → R x x) → (xs : List A) → Extends xs xs
  Extends-refl same [] = tt
  Extends-refl same (x ∷ xs) = (same x, Extends-refl same xs)

  pub Extends-trans :
      ((x y z : A) → R x y → R y z → R x z)
      → (xs ys zs : List A) → Extends xs ys
      → Extends ys zs
      → Extends xs zs
  Extends-trans join [] ys zs h k = tt
  Extends-trans join (x ∷ xs) [] zs h k = absurd h
  Extends-trans join (x ∷ xs) (y ∷ ys) [] h k = absurd k
  Extends-trans join (x ∷ xs) (y ∷ ys) (z ∷ zs) (p, h) (q, k) =
      (join x y z p q, Extends-trans join xs ys zs h k)

module _ {A : Type 0} where
  -- The element stands in the list.
  abbrev pub Among : A → List A → Type 0
  Among x [] = ⊥
  Among x (y ∷ ys) = (x ≡ y) ⊎ Among x ys

  kept_Among :
      (b : Bool) (x y : A) (ys : List A)
      → Among x (if b then y ∷ ys else ys)
      → (x ≡ y) × (b ≡ true) ⊎ Among x ys
  kept_Among true x y ys (inl e) = inl (e, refl)
  kept_Among true x y ys (inr m) = inr m
  kept_Among false x y ys m = inr m

  pub Among-filter :
      (p : A → Bool) (xs : List A) (x : A) → Among x (filter p xs) → Among x xs × (p x ≡ true)
  Among-filter p [] x m = absurd m
  Among-filter p (y ∷ xs) x m = elim (kept_Among (p y) x y (filter p xs) m) [
    | inl (e, holds) ↦ (inl e, subst (λ z. p z ≡ true) (sym e) holds)
    | inr later ↦ let (among, holds) = Among-filter p xs x later in (inr among, holds)
  ]

  pub filter-Among :
      (p : A → Bool) (xs : List A) (x : A) → Among x xs → p x ≡ true → Among x (filter p xs)
  filter-Among p [] x m holds = absurd m
  filter-Among p (y ∷ xs) x (inl e) holds = rw (subst (λ z. p z ≡ true) e holds) (inl e)
  filter-Among p (y ∷ xs) x (inr m) holds = later (p y) (filter-Among p xs x m holds)
    where
      later :
          (b : Bool) → Among x (filter p xs) → Among x (if b then y ∷ filter p xs else filter p xs)
      later true found = inr found
      later false found = found

  pub Among-append : (xs ys : List A) (x : A) → Among x xs → Among x (xs ++ ys)
  Among-append [] ys x m = absurd m
  Among-append (z ∷ xs) ys x (inl e) = inl e
  Among-append (z ∷ xs) ys x (inr m) = inr (Among-append xs ys x m)

  pub Among-last : (xs : List A) (x : A) → Among x (xs ++ x ∷ [])
  Among-last [] x = inl refl
  Among-last (z ∷ xs) x = inr (Among-last xs x)
