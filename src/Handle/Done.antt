-- ===== src/Handle/Done.antt =====
-- What the reply of a handler says: a request that is done has come through each of its steps.
use mathlib.Core.Path.{subst, sym}
use das_register.Prelude.{
  Bool, true, false, Option, none, some, ◌≡◌, ◌⊎◌, inl, inr, refl, if◌then◌else◌,
}
use das_register.Dao.Store.{
  db_error, Db, World, Done, Result, ok, err, Exec, Statement, Outcome, query,
}
use das_register.Handle.Reply.{
  ApiCode, Reply, done, rejected, Site, Handler, ◌>>=◌, ◌>>◌, reply, branch, from_option, from_dao,
  guard,
}
use das_register.Handle.Rules.{Stays, query-same}

-- A handler that is done, with what it answers and the site after it.
abbrev pub Comes : {A : Type 0} → Handler A → Site → A → Site → Type 0
Comes m s a t = m s ≡ (done a, t)

split_done :
    {A B : Type 0} (f : A → Handler B) (p : Reply A × Site) (b : B) (t : Site)
    → ◌>>=◌ (λ _. p) f p.1 ≡ (done b, t)
    → (a : A) × (s : Site) × (p ≡ (done a, s)) × (f a s ≡ (done b, t))
unfolding ◌>>=◌
split_done f (done a, s) b t e = (a, s, refl, e)
split_done f (rejected code, s) b t e = cc e

pub next-Comes :
    {A B : Type 0} (m : Handler A) (f : A → Handler B) (s : Site) (b : B) (t : Site)
    → Comes (m >>= f) s b t
    → (a : A) × (s' : Site) × Comes m s a s' × Comes (f a) s' b t
unfolding ◌>>=◌
next-Comes m f s b t e = split_done f (m s) b t e

pub also-Comes :
    {A B : Type 0} (m : Handler A) (k : Handler B) (s : Site) (b : B) (t : Site)
    → Comes (m >> k) s b t
    → (a : A) × (s' : Site) × Comes m s a s' × Comes k s' b t
unfolding ◌>>◌
also-Comes m k s b t e = next-Comes m (λ _. k) s b t e

pub guard-Comes :
    (b : Bool) (code : ApiCode) (s : Site) (u : Done) (t : Site)
    → Comes (guard b code) s u t
    → (b ≡ true) × (s ≡ t)
unfolding guard
guard-Comes true code s u t e = (refl, cc e)
guard-Comes false code s u t e = cc e

pub option-Comes :
    {A : Type 0} (o : Option A) (code : ApiCode) (s : Site) (a : A) (t : Site)
    → Comes (from_option o code) s a t
    → (o ≡ some a) × (s ≡ t)
unfolding from_option
option-Comes none code s a t e = cc e
option-Comes (some x) code s a t e = (cc e, cc e)

pub reply-Comes : {A : Type 0} (a b : A) (s t : Site) → Comes (reply a) s b t → (a ≡ b) × (s ≡ t)
unfolding reply
reply-Comes a b s t e = (cc e, cc e)

pub branch-Comes :
    {A : Type 0} (b : Bool) (m k : Handler A) (s : Site) (a : A) (t : Site)
    → Comes (branch b m k) s a t
    → ((b ≡ true) × Comes m s a t) ⊎ ((b ≡ false) × Comes k s a t)
unfolding branch
branch-Comes true m k s a t e = inl (refl, e)
branch-Comes false m k s a t e = inr (refl, e)

from_dao_done :
    {A : Type 0} (code : ApiCode) (s : Site) (p : Result A × World) (a : A) (t : Site)
    → from_dao code (λ _. p) s ≡ (done a, t)
    → (p.0 ≡ ok a) × (record s { world = p.1 } ≡ t)
unfolding from_dao
from_dao_done code s (ok x, w) a t e = (cc e, cc e)
from_dao_done code s (err x, w) a t e = cc e

answer_ok :
    {A : Type 0} (x : A) (w : World) (b : Bool) (a : A)
    → (if◌then◌else◌ {A = Result A × World} b (err db_error, w) (ok x, w)).0 ≡ ok a
    → x ≡ a
answer_ok x w true a e = cc e
answer_ok x w false a e = cc e

pub read-Comes :
    {A : Type 0} (code : ApiCode) (f : Db → A) (s : Site) (a : A) (t : Site)
    → Comes (from_dao code (query f)) s a t
    → (f s.world.db ≡ a) × (t.world.db ≡ s.world.db) × (t.locks ≡ s.locks)
unfolding from_dao query
read-Comes code f s a t e =
    let (answered, same) = from_dao_done code s (query f s.world) a t e in
    (
      answer_ok (f s.world.db) _ _ a answered,
      subst (λ x. x.world.db ≡ s.world.db) same (query-same f s.world),
      subst (λ x. x.locks ≡ s.locks) same refl,
    )

pub stays-Comes :
    (R : Site → Site → Type 0) {A : Type 0} (m : Handler A) (s : Site) (a : A) (t : Site)
    → Stays R m
    → Comes m s a t
    → R s t
stays-Comes R m s a t keep e = subst (λ p. R s p.1) e (keep.stayed s)

dao_done :
    (f : Statement) (code : ApiCode) (s : Site) (p : Result Done × World) (u : Done) (t : Site)
    → Outcome f s.world p
    → from_dao code (λ _. p) s ≡ (done u, t)
    → (f s.world.db ≡ some t.world.db) × (t.locks ≡ s.locks)
unfolding from_dao
dao_done f code s (ok a, w) u t (does, clean, quiet) e =
    let same : record s { world = w } ≡ t = cc e in
    (
      subst (λ x. f s.world.db ≡ some x.world.db) same does,
      subst (λ x. x.locks ≡ s.locks) same refl,
    )
dao_done f code s (err e', w) u t o e = cc e

pub store-Comes :
    (f : Statement) (code : ApiCode) (m : Exec Done) (s : Site) (u : Done) (t : Site)
    → Outcome f s.world (m s.world)
    → Comes (from_dao code m) s u t
    → (f s.world.db ≡ some t.world.db) × (t.locks ≡ s.locks)
unfolding from_dao
store-Comes f code m s u t o e = dao_done f code s (m s.world) u t o e

-- The same on what is left of a handler after its first step.
pub after_guard :
    {B : Type 0} (b : Bool) (code : ApiCode) (k : Handler B) (s : Site) (r : B) (t : Site)
    → Comes (guard b code >> k) s r t
    → (b ≡ true) × Comes k s r t
after_guard b code k s r t e =
    let (u, s', first, rest) = also-Comes (guard b code) k s r t e in
    let (holds, same) = guard-Comes b code s u s' first in
    (holds, subst (λ x. Comes k x r t) (sym same) rest)

pub after_option :
    {A B : Type 0} (o : Option A) (code : ApiCode) (f : A → Handler B) (s : Site) (r : B) (t : Site)
    → Comes (from_option o code >>= f) s r t
    → (a : A) × (o ≡ some a) × Comes (f a) s r t
after_option o code f s r t e =
    let (a, s', first, rest) = next-Comes (from_option o code) f s r t e in
    let (found, same) = option-Comes o code s a s' first in
    (a, found, subst (λ x. Comes (f a) x r t) (sym same) rest)

pub after_read :
    {A B : Type 0} (code : ApiCode) (q : Db → A) (f : A → Handler B) (s : Site) (r : B) (t : Site)
    → Comes (from_dao code (query q) >>= f) s r t
    → (s' : Site) × (s'.world.db ≡ s.world.db)
      × (s'.locks ≡ s.locks)
      × Comes (f (q s.world.db)) s' r t
after_read code q f s r t e =
    let (a, s', first, rest) = next-Comes (from_dao code (query q)) f s r t e in
    let (answer, same, locks) = read-Comes code q s a s' first in
    (s', same, locks, subst (λ x. Comes (f x) s' r t) (sym answer) rest)

module _ (R : Site → Site → Type 0) where
  pub after_step :
      {A B : Type 0} (m : Handler A) (f : A → Handler B) (s : Site) (r : B) (t : Site)
      → Stays R m
      → Comes (m >>= f) s r t
      → (a : A) × (s' : Site) × R s s' × Comes m s a s' × Comes (f a) s' r t
  after_step m f s r t keep e =
      let (a, s', first, rest) = next-Comes m f s r t e in
      (a, s', stays-Comes R m s a s' keep first, first, rest)

  pub after_check :
      {A B : Type 0} (m : Handler A) (k : Handler B) (s : Site) (r : B) (t : Site)
      → Stays R m
      → Comes (m >> k) s r t
      → (a : A) × (s' : Site) × R s s' × Comes m s a s' × Comes k s' r t
  after_check m k s r t keep e =
      let (a, s', first, rest) = also-Comes m k s r t e in
      (a, s', stays-Comes R m s a s' keep first, first, rest)
