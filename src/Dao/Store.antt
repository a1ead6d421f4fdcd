-- ===== src/Dao/Store.antt =====
-- The database behind `dao.DbDao`: its tables as lists of rows in the order of their ids, its
-- statements, and its transactions. Any statement may fail for a reason outside the program (a lost
-- connection, a deadlock), which a schedule of faults decides, or be refused (a duplicate key).
use das_register.Prelude.{
  ◌∙◌, Option-cases, ◌≡◌, refl, ◌⊎◌, inl, inr, Bool, true, false, Option, none, some, List, [], ◌∷◌,
  ◌++◌, if◌then◌else◌,
}
use das_register.Tables.Order.{Order}
use das_register.Tables.Names.{Name}
use das_register.Tables.Pay.{PayInfo, OrderTx, OrderTxAction}
use das_register.Tables.Rest.{Coupon, PendingInfo, BlockInfo, AccountInfo}

-- `accounts` is the table of `parserDb`, which das-database writes.
pub record Db : Type 0 where
  pub orders : List Order
  pub pays : List PayInfo
  pub txs : List OrderTx
  pub coupons : List Coupon
  pub pendings : List PendingInfo
  pub blocks : List BlockInfo
  pub accounts : List AccountInfo

-- A message to another service: the hedge of an order, the refund of payments, each an order's id and
-- a payment's hash, and a transaction that is sent to the chain for an order.
pub data Call : Type 0 where
  hedge : Name → Call
  refund : List (Name × Name) → Call
  send_tx : OrderTxAction → Name → Call

-- `sent` holds the messages sent so far, the last one first. `faults` says of each statement to come whether it fails; past its end no statement fails.
pub record World : Type 0 where
  pub db : Db
  pub faults : List Bool
  pub sent : List Call

-- Why an operation returned an error; the texts of the errors are left out.
pub data Error : Type 0 where
  db_error refused not_found bad_content build_failed send_failed chain_error cache_error sync_error
        config_error :
      Error

-- The result of a method that returns only an `error`.
abbrev pub Done : Type 0
Done = Unit

pub data Result (A : Type 0) : Type 0 where
  ok : A → Result A
  err : Error → Result A

abbrev pub Exec : Type 0 → Type 0
Exec A = World → Result A × World

module _ {A : Type 0} where
  abbrev pub pure : A → Exec A
  pure a w = (ok a, w)

  abbrev pub raise : Error → Exec A
  raise e w = (err e, w)

infixl 5 ◌>>=◌ ◌>>◌
abbrev pub ◌>>=◌ : {A B : Type 0} → Exec A → (A → Exec B) → Exec B
◌>>=◌ m f w = let (r, w') = m w in elim r [ ok a ↦ f a w' | err e ↦ (err e, w') ]

abbrev pub ◌>>◌ : {A B : Type 0} → Exec A → Exec B → Exec B
m >> k = m >>= λ _. k

-- `if err := m; err != nil { log.Error(err) }`: the error is logged and the run goes on.
abbrev pub log_error : Exec Done → Exec Done
log_error m w = (ok tt, (m w).1)

abbrev pub when : Bool → Exec Done → Exec Done
when b m w = if b then m w else (ok tt, w)

abbrev pub continued : Result Done × World → Exec Done → Result Done × World
continued (ok _, w) k = k w
continued (err e, w) k = (err e, w)

-- `for _, v := range list` whose body returns its error at once.
unfoldable pub for_each : {A : Type 0} → (A → Exec Done) → List A → Exec Done
for_each body [] w = (ok tt, w)
for_each body (x ∷ xs) w = continued (body x w) (for_each body xs)

abbrev pub call : Call → Exec Done
call c w = (ok tt, record w { sent = c ∷ w.sent })

-- `none` is a statement that the database refuses.
abbrev pub Statement : Type 0
Statement = Db → Option Db

abbrev pub is_faulty : List Bool → Bool
is_faulty [] = false
is_faulty (b ∷ rest) = b

abbrev pub later_faults : List Bool → List Bool
later_faults [] = []
later_faults (b ∷ rest) = rest

abbrev applied : Option Db → World → Result Done × World
applied none w = (err refused, w)
applied (some db) w = (ok tt, record w { db = db })

unfoldable pub exec : Statement → Exec Done
exec f w =
    let w' = record w { faults = later_faults w.faults } in
    if is_faulty w.faults then (err db_error, w') else applied (f w.db) w'

unfoldable pub query : {A : Type 0} → (Db → A) → Exec A
query f w =
    let w' = record w { faults = later_faults w.faults } in
    if is_faulty w.faults then (err db_error, w') else (ok (f w.db), w')

unfoldable pub exec_all : List Statement → Exec Done
unfolding exec
exec_all [] w = (ok tt, w)
exec_all (f ∷ fs) w = continued (exec f w) (exec_all fs)

abbrev rolled_back : Db → Result Done × World → Result Done × World
rolled_back db (ok a, w) = (ok a, w)
rolled_back db (err e, w) = (err e, record w { db = db })

-- `d.db.Transaction`: BEGIN, the statements, COMMIT, and ROLLBACK at the first error.
unfoldable pub transaction : List Statement → Exec Done
unfolding exec_all
transaction fs w = rolled_back w.db (exec_all (some ∷ fs ++ some ∷ []) w)

infixr 20 ◌then◌
abbrev pub ◌then◌ : Statement → Statement → Statement
◌then◌ f g db = elim (f db) [ none ↦ none | some db' ↦ g db' ]

-- The same with BEGIN already sent.
unfoldable pub open_transaction : List Statement → Exec Done
unfolding exec_all
open_transaction fs w = rolled_back w.db (exec_all (fs ++ some ∷ []) w)

-- What statements in a row do to the database.
abbrev pub all_of : List Statement → Statement
all_of [] = some
all_of (f ∷ fs) = f then all_of fs

-- The schedule makes a statement fail.
abbrev pub Faulty : List Bool → Type 0
Faulty [] = ⊥
Faulty (b ∷ rest) = (b ≡ true) ⊎ Faulty rest

-- What an operation that is to do `f` has done: it returned no error and `f` is done, or it
-- returned one, left the database alone, and met a fault or a refusal.
abbrev pub Outcome : Statement → World → Result Done × World → Type 0
Outcome f w (ok _, w') =
    (f w.db ≡ some w'.db) × (Faulty w'.faults → Faulty w.faults) × (w'.sent ≡ w.sent)
Outcome f w (err _, w') = (w'.db ≡ w.db) × (Faulty w.faults ⊎ (f w.db ≡ none)) × (w'.sent ≡ w.sent)

pub exec-Outcome : (f : Statement) (w : World) → Outcome f w (exec f w)
unfolding exec
exec-Outcome f w = by_fault w.faults (f w.db) refl
  where
    by_fault :
        (faults : List Bool) (next : Option Db)
        → f w.db ≡ next
        → Outcome f
            (record w { faults = faults })
            (if is_faulty faults
              then (err db_error, record w { faults = later_faults faults })
              else applied next (record w { faults = later_faults faults }))
    by_fault [] none e = (refl, inr e, refl)
    by_fault [] (some db) e = (e, λ faulty. faulty, refl)
    by_fault (true ∷ rest) next e = (refl, inl (inl refl), refl)
    by_fault (false ∷ rest) none e = (refl, inr e, refl)
    by_fault (false ∷ rest) (some db) e = (e, λ faulty. inr faulty, refl)

-- The same without the promise about the database after an error: of a run with no transaction.
abbrev pub Ran : Statement → World → Result Done × World → Type 0
Ran f w (ok _, w') =
    (f w.db ≡ some w'.db) × (Faulty w'.faults → Faulty w.faults) × (w'.sent ≡ w.sent)
Ran f w (err _, w') = (Faulty w.faults ⊎ (f w.db ≡ none)) × (w'.sent ≡ w.sent)

then-Ran :
    (f g : Statement) (w w' : World) (q : Result Done × World)
    → f w.db ≡ some w'.db
    → (Faulty w'.faults → Faulty w.faults)
    → w'.sent ≡ w.sent
    → Ran g w' q
    → Ran (f then g) w q
then-Ran f g w w' (ok _, w'') done clean quiet (r, c, s) =
    (rw (done, ◌then◌) r, λ e. clean (c e), s ∙ quiet)
then-Ran f g w w' (err _, w'') done clean quiet (inl faulty, s) = (inl (clean faulty), s ∙ quiet)
then-Ran f g w w' (err _, w'') done clean quiet (inr refuses, s) =
    (inr (rw (done, ◌then◌) refuses), s ∙ quiet)

bind-Ran :
    (f g : Statement) (w : World) (p : Result Done × World) (k : Exec Done)
    → Outcome f w p
    → ((w' : World) → Ran g w' (k w'))
    → Ran (f then g) w (continued p k)
bind-Ran f g w (err e, w') k (same, inl faulty, quiet) ran = (inl faulty, quiet)
bind-Ran f g w (err e, w') k (same, inr refuses, quiet) ran = (inr (rw (refuses, ◌then◌)), quiet)
bind-Ran f g w (ok _, w') k (done, clean, quiet) ran =
    then-Ran f g w w' (k w') done clean quiet (ran w')

exec_all-Ran : (fs : List Statement) (w : World) → Ran (all_of fs) w (exec_all fs w)
unfolding exec_all
exec_all-Ran [] w = (refl, λ e. e, refl)
exec_all-Ran (f ∷ fs) w =
    bind-Ran f (all_of fs) w (exec f w) (exec_all fs) (exec-Outcome f w) (exec_all-Ran fs)

rolled_back-Outcome :
    (f : Statement) (w : World) (p : Result Done × World)
    → Ran f w p
    → Outcome f w (rolled_back w.db p)
rolled_back-Outcome f w (ok _, w') ran = ran
rolled_back-Outcome f w (err e, w') (why, quiet) = (refl, why, quiet)

all_of-commit : (fs : List Statement) (db : Db) → all_of (fs ++ some ∷ []) db ≡ all_of fs db
all_of-commit [] db = refl
all_of-commit (f ∷ fs) db = elim (Option-cases (f db)) [
  | inl refuses ↦ rw (refuses, ◌then◌)
  | inr (db', e) ↦ rw (e, ◌then◌) (all_of-commit fs db')
]

Ran-eq :
    (f g : Statement) (w : World) (p : Result Done × World)
    → f w.db ≡ g w.db
    → Ran f w p
    → Ran g w p
Ran-eq f g w (ok _, w') e (done, rest, quiet) = (rw (← e) done, rest, quiet)
Ran-eq f g w (err _, w') e (inl faulty, quiet) = (inl faulty, quiet)
Ran-eq f g w (err _, w') e (inr refuses, quiet) = (inr (rw (← e) refuses), quiet)

committed-Outcome :
    (fs : List Statement) (w : World)
    → Outcome (all_of fs) w (rolled_back w.db (exec_all (fs ++ some ∷ []) w))
committed-Outcome fs w = rolled_back-Outcome (all_of fs) w (exec_all (fs ++ some ∷ []) w) (
    Ran-eq (all_of (fs ++ some ∷ [])) (all_of fs) w (exec_all (fs ++ some ∷ []) w)
      (all_of-commit fs w.db) (exec_all-Ran (fs ++ some ∷ []) w))

-- A transaction is atomic: it does all of its statements, or it returns an error and has done none.
pub transaction-Outcome :
    (fs : List Statement) (w : World) → Outcome (all_of fs) w (transaction fs w)
unfolding transaction
transaction-Outcome fs w = committed-Outcome (some ∷ fs) w

pub open_transaction-Outcome :
    (fs : List Statement) (w : World) → Outcome (all_of fs) w (open_transaction fs w)
unfolding open_transaction
open_transaction-Outcome fs w = committed-Outcome fs w

pub Outcome-eq :
    (f g : Statement) (w : World) (p : Result Done × World)
    → f w.db ≡ g w.db
    → Outcome f w p
    → Outcome g w p
Outcome-eq f g w (ok _, w') e (done, rest, quiet) = (rw (← e) done, rest, quiet)
Outcome-eq f g w (err _, w') e (same, inl faulty, quiet) = (same, inl faulty, quiet)
Outcome-eq f g w (err _, w') e (same, inr refuses, quiet) = (same, inr (rw (← e) refuses), quiet)

pub transaction-does :
    (fs : List Statement) (g : Statement) (w : World)
    → all_of fs w.db ≡ g w.db
    → Outcome g w (transaction fs w)
transaction-does fs g w e =
    Outcome-eq (all_of fs) g w (transaction fs w) e (transaction-Outcome fs w)
