-- ===== src/Dao/Keeps.antt =====
-- Relations between the database before a run and after it. A relation that is reflexive and
-- transitive holds of a run if it holds of the statements, whatever fails on the way.
use das_register.Prelude.{
  Bool, true, false, Option, none, some, List, [], ◌∷◌, ◌≡◌, refl, All, if◌then◌else◌,
}
use das_register.Dao.Store.{
  Db, World, Done, Result, ok, err, Exec, Statement, Call, ◌>>=◌, ◌>>◌, log_error, when, for_each,
  continued, call, ◌then◌, all_of, exec, query, transaction, open_transaction, Outcome,
  exec-Outcome, transaction-Outcome, open_transaction-Outcome, is_faulty,
}

pub record Preorder (R : Db → Db → Type 0) : Type 0 where
  pub same : (db : Db) → R db db
  pub join : (a b c : Db) → R a b → R b c → R a c

-- However the run ends, the database after it is related to the one before it.
pub record Keeps (R : Db → Db → Type 0) {A : Type 0} (m : Exec A) : Type 0 where
  pub kept : (w : World) → R w.db (m w).1.db

module _ (R : Db → Db → Type 0) where
  -- The statement leads to a related database where it is not refused.
  abbrev pub Safe : Statement → Type 0
  Safe f = (db db' : Db) → f db ≡ some db' → R db db'

pub then_some :
    (o : Option Db) (g : Statement) (db' : Db)
    → elim o [ none ↦ none | some x ↦ g x ] ≡ some db'
    → (x : Db) × (o ≡ some x) × (g x ≡ some db')
then_some none g db' e = cc e
then_some (some x) g db' e = (x, refl, e)

module _ (R : Db → Db → Type 0) (order : Preorder R) where
  all_of-Safe : (fs : List Statement) → All (Safe R) fs → Safe R (all_of fs)
  all_of-Safe [] h db db' e = let q : db ≡ db' = cc e in rw q (order.same db')
  all_of-Safe (f ∷ fs) (s, h) db db' e =
      let (x, first, rest) = then_some (f db) (all_of fs) db' e in
      order.join db x db' (s db x first) (all_of-Safe fs h x db' rest)

  Outcome-related :
      (f : Statement) (w : World) (p : Result Done × World)
      → Safe R f
      → Outcome f w p
      → R w.db p.1.db
  Outcome-related f w (ok _, w') safe (e, clean, quiet) = safe w.db w'.db e
  Outcome-related f w (err _, w') safe (same, why, quiet) = rw same (order.same w.db)

  pub exec-Keeps : (f : Statement) → Safe R f → Keeps R (exec f)
  exec-Keeps f safe = record { kept = λ w. Outcome-related f w (exec f w) safe (exec-Outcome f w) }

  pub transaction-Keeps : (fs : List Statement) → All (Safe R) fs → Keeps R (transaction fs)
  transaction-Keeps fs safe = record {
    kept = λ w.
        Outcome-related (all_of fs) w (transaction fs w) (all_of-Safe fs safe)
          (transaction-Outcome fs w);
  }

  pub open_transaction-Keeps :
      (fs : List Statement) → All (Safe R) fs → Keeps R (open_transaction fs)
  open_transaction-Keeps fs safe = record {
    kept = λ w.
        Outcome-related (all_of fs) w (open_transaction fs w) (all_of-Safe fs safe)
          (open_transaction-Outcome fs w);
  }

  read-related :
      {A : Type 0} (f : Db → A) (w : World) (b : Bool)
      → is_faulty w.faults ≡ b
      → R w.db (query f w).1.db
  unfolding query
  read-related f w true e = rw e (order.same w.db)
  read-related f w false e = rw e (order.same w.db)

  pub query-Keeps : {A : Type 0} (f : Db → A) → Keeps R (query f)
  query-Keeps f = record { kept = λ w. read-related f w (is_faulty w.faults) refl }

  pub idle-Keeps : {A : Type 0} (r : Result A) → Keeps R (λ w. (r, w))
  idle-Keeps r = record { kept = λ w. order.same w.db }

  pub call-Keeps : (c : Call) → Keeps R (call c)
  call-Keeps c = record { kept = λ w. order.same w.db }

  bound-related :
      {A B : Type 0} (f : A → Exec B)
      → ((a : A) → Keeps R (f a))
      → (w : World) (p : Result A × World) → R w.db p.1.db
      → R w.db (◌>>=◌ (λ _. p) f w).1.db
  bound-related f keep w (ok a, w') first =
      order.join w.db w'.db (f a w').1.db first ((keep a).kept w')
  bound-related f keep w (err e, w') first = first

  pub bind-Keeps :
      {A B : Type 0} {m : Exec A} {f : A → Exec B}
      → Keeps R m
      → ((a : A) → Keeps R (f a))
      → Keeps R (m >>= f)
  bind-Keeps {m = m} {f = f} first keep = record {
    kept = λ w. bound-related f keep w (m w) (first.kept w);
  }

  pub then-Keeps :
      {A B : Type 0} {m : Exec A} {k : Exec B} → Keeps R m → Keeps R k → Keeps R (m >> k)
  then-Keeps {m = m} {k = k} first keep = record {
    kept = λ w. bound-related (λ _. k) (λ _. keep) w (m w) (first.kept w);
  }

  pub log_error-Keeps : {m : Exec Done} → Keeps R m → Keeps R (log_error m)
  log_error-Keeps keep = record { kept = λ w. keep.kept w }

  pub if-Keeps :
      {A : Type 0} (b : Bool) {m k : Exec A} → Keeps R m → Keeps R k → Keeps R (if b then m else k)
  if-Keeps true left right = left
  if-Keeps false left right = right

  pub when-Keeps : (b : Bool) {m : Exec Done} → Keeps R m → Keeps R (when b m)
  when-Keeps true keep = record { kept = λ w. keep.kept w }
  when-Keeps false keep = record { kept = λ w. order.same w.db }

  continued-related :
      (k : Exec Done)
      → Keeps R k
      → (w : World) (p : Result Done × World) → R w.db p.1.db
      → R w.db (continued p k).1.db
  continued-related k keep w (ok _, w') first =
      order.join w.db w'.db (k w').1.db first (keep.kept w')
  continued-related k keep w (err e, w') first = first

  pub for_each-Keeps :
      {A : Type 0} {body : A → Exec Done}
      → ((a : A) → Keeps R (body a))
      → (xs : List A) → Keeps R (for_each body xs)
  unfolding for_each
  for_each-Keeps keep [] = record { kept = λ w. order.same w.db }
  for_each-Keeps {body = body} keep (x ∷ xs) = record {
    kept = λ w.
        continued-related (for_each body xs) (for_each-Keeps keep xs) w (body x w)
          ((keep x).kept w);
  }

module _ (R : Db → Db → Type 0) (order : Preorder R) where
  some-related : (db d db' : Db) → R db d → Option.some d ≡ some db' → R db db'
  some-related db d db' r e = let q : d ≡ db' = cc e in rw (← q) r

  pub total-Safe : (g : Db → Db) → ((db : Db) → R db (g db)) → Safe R (λ db. some (g db))
  total-Safe g r db db' e = some-related db (g db) db' (r db) e

  unless-related :
      (b : Bool) (db d db' : Db)
      → (b ≡ false → R db d)
      → (if b then none else Option.some d) ≡ some db'
      → R db db'
  unless-related true db d db' r e = cc e
  unless-related false db d db' r e = some-related db d db' (r refl) e

  pub unless-Safe :
      (b : Db → Bool) (g : Db → Db)
      → ((db : Db) → b db ≡ false → R db (g db))
      → Safe R (λ db. if b db then none else some (g db))
  unless-Safe b g r db db' e = unless-related (b db) db (g db) db' (r db) e

  provided-related :
      (b : Bool) (f : Statement) (db db' : Db)
      → R db db
      → (f db ≡ some db' → R db db')
      → (if b then f db else none) ≡ some db'
      → R db db'
  provided-related true f db db' same r e = r e
  provided-related false f db db' same r e = cc e

  pub provided-Safe :
      (b : Bool) (f : Statement) → Safe R f → Safe R (λ db. if b then f db else none)
  provided-Safe b f safe db db' e = provided-related b f db db' (order.same db) (safe db db') e
