-- ===== src/Handle/Rules.antt =====
-- Rules for handlers: what a run leaves as it was, and what a reply says of the steps before it.
use das_register.Prelude.{Bool, true, false, Option, none, some, ◌≡◌, refl, ◌∙◌}
use das_register.Dao.Store.{Db, World, Result, ok, err, Exec, query}
use das_register.Dao.Keeps.{Preorder, query-Keeps}
use das_register.Handle.Reply.{
  ApiCode, Reply, done, rejected, Site, Handler, ◌>>=◌, ◌>>◌, reply, reject, branch, from_option,
  from_dao, guard,
}

-- A relation of sites that holds where only faults were met.
pub record SiteOrder (R : Site → Site → Type 0) : Type 0 where
  pub join : (a b c : Site) → R a b → R b c → R a c
  pub reads : (s : Site) (w : World) → w.db ≡ s.world.db → R s (record s { world = w })

-- However the handler answers, the site after it is related to the one before it.
pub record Stays (R : Site → Site → Type 0) {A : Type 0} (m : Handler A) : Type 0 where
  pub stayed : (s : Site) → R s (m s).1

same_db-Preorder : Preorder (λ a b. b ≡ a)
same_db-Preorder = record { same = λ db. refl; join = λ a b c p q. q ∙ p }

pub query-same : {A : Type 0} (f : Db → A) (w : World) → (query f w).1.db ≡ w.db
query-same f w = (query-Keeps (λ a b. b ≡ a) same_db-Preorder f).kept w

module _ (R : Site → Site → Type 0) (order : SiteOrder R) where
  pub still : (s : Site) → R s s
  still s = order.reads s s.world refl

  pub reply-Stays : {A : Type 0} (a : A) → Stays R (reply a)
  unfolding reply
  reply-Stays a = record { stayed = still }

  pub reject-Stays : {A : Type 0} (code : ApiCode) → Stays R (reject {A = A} code)
  unfolding reject
  reject-Stays code = record { stayed = still }

  guard-related : (b : Bool) (code : ApiCode) (s : Site) → R s (guard b code s).1
  unfolding guard
  guard-related true code s = still s
  guard-related false code s = still s

  pub guard-Stays : (b : Bool) (code : ApiCode) → Stays R (guard b code)
  guard-Stays b code = record { stayed = guard-related b code }

  option-related :
      {A : Type 0} (o : Option A) (code : ApiCode) (s : Site) → R s (from_option o code s).1
  unfolding from_option
  option-related none code s = still s
  option-related (some a) code s = still s

  pub from_option-Stays :
      {A : Type 0} (o : Option A) (code : ApiCode) → Stays R (from_option o code)
  from_option-Stays o code = record { stayed = option-related o code }

  bound-related :
      {A B : Type 0} (f : A → Handler B)
      → ((a : A) → Stays R (f a))
      → (s : Site) (p : Reply A × Site) → R s p.1
      → R s (◌>>=◌ (λ _. p) f s).1
  unfolding ◌>>=◌
  bound-related f keep s (done a, s') first = order.join s s' (f a s').1 first ((keep a).stayed s')
  bound-related f keep s (rejected code, s') first = first

  pub bind-Stays :
      {A B : Type 0} {m : Handler A} {f : A → Handler B}
      → Stays R m
      → ((a : A) → Stays R (f a))
      → Stays R (m >>= f)
  unfolding ◌>>=◌
  bind-Stays {m = m} {f = f} first keep = record {
    stayed = λ s. bound-related f keep s (m s) (first.stayed s);
  }

  pub branch-Stays :
      {A : Type 0} (b : Bool) {m k : Handler A} → Stays R m → Stays R k → Stays R (branch b m k)
  unfolding branch
  branch-Stays true left right = record { stayed = left.stayed }
  branch-Stays false left right = record { stayed = right.stayed }

  dao-related :
      {A : Type 0} (code : ApiCode) (m : Exec A)
      → ((w : World) → (m w).1.db ≡ w.db)
      → (s : Site) → R s (from_dao code m s).1
  unfolding from_dao
  dao-related {A = A} code m same s = go (m s.world) (same s.world)
    where
      go : (p : Result A × World) → p.1.db ≡ s.world.db → R s (from_dao code (λ _. p) s).1
      go (ok a, w) e = order.reads s w e
      go (err e', w) e = order.reads s w e

  pub read-Stays : {A : Type 0} (code : ApiCode) (f : Db → A) → Stays R (from_dao code (query f))
  read-Stays code f = record { stayed = dao-related code (query f) (query-same f) }

  pub also-Stays :
      {A B : Type 0} {m : Handler A} {k : Handler B} → Stays R m → Stays R k → Stays R (m >> k)
  unfolding ◌>>◌
  also-Stays {m = m} {k = k} first keep = record {
    stayed = λ s. bound-related (λ _. k) (λ _. keep) s (m s) (first.stayed s);
  }
