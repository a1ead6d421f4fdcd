-- ===== src/Lifecycle/Chain.antt =====
-- Runs that reach their database by the writes, put together.
use das_register.Prelude.{Bool, List, if◌then◌else◌, nat_coded}
use das_register.Tables.Names.{das_action_coded}
use das_register.Tables.Order.{uni_pay_coded}
use das_register.Tables.Pay.{refund_status_coded, pay_hash_status_coded}
use das_register.Dao.Store.{Db, Done, Exec, Result, ◌>>=◌, ◌>>◌, log_error, when, for_each, query}
use das_register.Dao.Keeps.{
  Preorder, Keeps, query-Keeps, idle-Keeps, bind-Keeps, then-Keeps, log_error-Keeps, if-Keeps,
  when-Keeps, for_each-Keeps,
}
use das_register.Lifecycle.Writes.{Write, perform, Reach}

Reach-trans : (a b c : Db) → Reach a b → Reach b c → Reach a c
Reach-trans a b _ r (Reach.stay _) = r
Reach-trans a b _ r (Reach.write _ w x s) = Reach.write a w x (Reach-trans a b w.db r s)

pub Reach-Preorder : Preorder Reach
Reach-Preorder = record { same = λ db. Reach.stay db; join = λ a b c. Reach-trans a b c }

pub writes : (x : Write) → Keeps Reach (perform x)
writes x = record { kept = λ w. Reach.write w.db w x (Reach.stay w.db) }

pub reads : {A : Type 0} (f : Db → A) → Keeps Reach (query f)
reads f = query-Keeps Reach Reach-Preorder f

pub next :
    {A B : Type 0} {m : Exec A} {f : A → Exec B}
    → Keeps Reach m
    → ((a : A) → Keeps Reach (f a))
    → Keeps Reach (m >>= f)
next first keep = bind-Keeps Reach Reach-Preorder first keep

pub also :
    {A B : Type 0} {m : Exec A} {k : Exec B} → Keeps Reach m → Keeps Reach k → Keeps Reach (m >> k)
also first keep = then-Keeps Reach Reach-Preorder first keep

pub each :
    {A : Type 0} {body : A → Exec Done}
    → ((a : A) → Keeps Reach (body a))
    → (xs : List A) → Keeps Reach (for_each body xs)
each keep xs = for_each-Keeps Reach Reach-Preorder keep xs

pub rest : {A : Type 0} (r : Result A) → Keeps Reach (λ w. (r, w))
rest r = idle-Keeps Reach Reach-Preorder r

pub either :
    {A : Type 0} (b : Bool) {m k : Exec A}
    → Keeps Reach m
    → Keeps Reach k
    → Keeps Reach (if b then m else k)
either b left right = if-Keeps Reach Reach-Preorder b left right

pub logged : {m : Exec Done} → Keeps Reach m → Keeps Reach (log_error m)
logged keep = log_error-Keeps Reach Reach-Preorder keep

pub guarded : (b : Bool) {m : Exec Done} → Keeps Reach m → Keeps Reach (when b m)
guarded b keep = when-Keeps Reach Reach-Preorder b keep
