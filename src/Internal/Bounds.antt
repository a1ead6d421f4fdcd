-- ===== src/Internal/Bounds.antt =====
-- The retry loops of internal: that they end, after how many calls and how long a wait, and with
-- what answer.
use native.Mathlib.Decide.{dec_lt}
use das_register.Prelude.{
  Option-cases, All, [], ◌∷◌, length, leb, if◌then◌else◌, ◌↔◌, inl, inr, ℕ, zero, suc, ◌+◌, ◌≤◌,
  ◌<◌, ◌≡◌, ◌≢◌, refl, Bool, true, false, Option, none, some, arith, nat_coded, ◌==◌,
}
use das_register.Tables.Names.{Name}
use das_register.Internal.{
  answered, cancelled, Attempts, after_wait, cut_off, RetryConfig, calculate_backoff, retry_from,
  with_retry, latest_from, is_latest_block_number,
}

calculate_backoff-le :
    (i : ℕ) (config : RetryConfig) → calculate_backoff i config ≤ config.max_backoff
unfolding calculate_backoff
calculate_backoff-le i config = ground arith

-- At most `most` calls, no more waits than calls, and none of them longer than the longest backoff.
abbrev pub Bounded : {A : Type 0} → RetryConfig → ℕ → Attempts A → Type 0
Bounded config most a =
    (a.calls ≤ most) × (length a.waits ≤ a.calls) × All (λ w. w ≤ config.max_backoff) a.waits

waited-Bounded :
    {A : Type 0} (config : RetryConfig) (i left : ℕ) (end_ : Option ℕ) (rest : Attempts A)
    → Bounded config left rest
    → Bounded config (suc left) (elim (cut_off (calculate_backoff i config) end_) [
      | some time ↦ record { calls = 1; waits = time ∷ []; ending = cancelled }
      | none ↦ after_wait (calculate_backoff i config) rest
    ])
waited-Bounded config i left none rest (calls, waits, each) =
    (omega (arith, calls), omega (arith, waits), (calculate_backoff-le i config, each))
waited-Bounded config i left (some time) rest (calls, waits, each) = by_time (leb time backoff) refl
  where
    backoff : ℕ
    backoff = calculate_backoff i config

    by_time :
        (b : Bool)
        → leb time (calculate_backoff i config) ≡ b
        → Bounded config (suc left) (elim (if b then Option.some time else none) [
          | some t ↦ record { calls = 1; waits = t ∷ []; ending = cancelled }
          | none ↦ after_wait (calculate_backoff i config) rest
        ])
    by_time true e =
        let soon : time ≤ calculate_backoff i config = ground (arith, e) in
        (omega arith, omega arith, (omega (arith, soon, calculate_backoff-le i config), tt))
    by_time false e =
        (omega (arith, calls), omega (arith, waits), (calculate_backoff-le i config, each))

retry_from-bounds :
    {A : Type 0} (config : RetryConfig) (answers : ℕ → Option A) (ends : ℕ → Option ℕ) (i left : ℕ)
    → Bounded config left (retry_from config answers ends i left)
unfolding retry_from
retry_from-bounds config answers ends i zero = (omega arith, omega arith, tt)
retry_from-bounds config answers ends i (suc left) = elim (Option-cases (answers i)) [
  | inl fails ↦
      rw (fails, retry_from)
        (waited-Bounded config i left (ends i) (retry_from config answers ends (suc i) left)
          (retry_from-bounds config answers ends (suc i) left))
  | inr (a, found) ↦ rw (found, retry_from) (omega arith, omega arith, tt)
]

-- A retried request ends: it makes at most `max_retries` calls, waits at most once after each, and
-- never longer than `max_backoff`, whatever the node answers and whenever the context ends.
pub with_retry-Bounded :
    {A : Type 0} (config : RetryConfig) (answers : ℕ → Option A) (ends : ℕ → Option ℕ)
    → Bounded config config.max_retries (with_retry config answers ends)
unfolding with_retry
with_retry-Bounded config answers ends = retry_from-bounds config answers ends 0 config.max_retries

retry_from-answered :
    {A : Type 0} (config : RetryConfig) (answers : ℕ → Option A) (ends : ℕ → Option ℕ)
    (i n left : ℕ) (a : A)
    → i ≤ n
    → n < i + left
    → answers n ≡ some a
    → ((j : ℕ)
        → i ≤ j
        → j < n
        → (answers j ≡ none) × (cut_off (calculate_backoff j config) (ends j) ≡ none))
    → ((retry_from config answers ends i left).ending ≡ answered a)
      × (i + (retry_from config answers ends i left).calls ≡ suc n)
unfolding retry_from
retry_from-answered config answers ends i n zero a lo hi e before = absurd (omega arith)
retry_from-answered config answers ends i n (suc left) a lo hi e before = elim (dec_lt i n) [
  | yes earlier ↦
      let (fails, goes_on) = before i (omega arith) earlier in
      let (ending, calls) =
        retry_from-answered config answers ends (suc i) n left a (omega arith) (omega arith) e
          (λ j lo' hi'. before j (omega arith) hi') in
      rw (fails, goes_on, retry_from) (ending, omega (arith, calls))
  | no here ↦ let i_is_n : i ≡ n = omega arith in rw (i_is_n, e, retry_from) (refl, omega arith)
]

-- If attempt `n` is the first that the node answers, comes before the limit, and the context has not
-- ended before it, then a retried request returns that answer after `n + 1` calls.
pub with_retry-answers :
    {A : Type 0} (config : RetryConfig) (answers : ℕ → Option A) (ends : ℕ → Option ℕ) (n : ℕ)
    (a : A)
    → n < config.max_retries
    → answers n ≡ some a
    → ((j : ℕ)
        → j < n
        → (answers j ≡ none) × (cut_off (calculate_backoff j config) (ends j) ≡ none))
    → ((with_retry config answers ends).ending ≡ answered a)
      × ((with_retry config answers ends).calls ≡ suc n)
unfolding with_retry
with_retry-answers config answers ends n a h e before =
    let (ending, calls) =
      retry_from-answered config answers ends 0 n config.max_retries a (omega arith) (omega arith) e
        (λ j _ below. before j below) in
    (ending, omega (arith, calls))

latest_from-answer :
    (answers : ℕ → Option Bool) (left i : ℕ)
    → (latest_from answers i left).0 ≡ true
    → (n : ℕ) × (i ≤ n)
      × (n < i + left)
      × (answers n ≡ some true)
      × ((j : ℕ) → i ≤ j → j < n → answers j ≡ none)
unfolding latest_from
latest_from-answer answers zero i e = cc e
latest_from-answer answers (suc left) i e = elim (Option-cases (answers i)) [
  | inl fails ↦
      let later : (latest_from answers (suc i) left).0 ≡ true = ground (arith, fails, e) in
      let (n, lo, hi, found, before) = latest_from-answer answers left (suc i) later in
      (
        n,
        omega (arith, lo),
        omega (arith, hi),
        found,
        λ j lo' hi'. elim (dec_lt i j) [
          | yes above ↦ before j (omega arith) hi'
          | no here ↦ let same : i ≡ j = omega arith in rw (← same) fails
        ],
      )
  | inr (b, found) ↦
      let is_true : b ≡ true = ground (arith, found, e) in
      (i, omega arith, omega arith, rw (← is_true) found, λ j lo hi. absurd (omega arith))
]

latest_from-slept : (answers : ℕ → Option Bool) → (latest_from answers 0 3).1 ≤ 3
unfolding latest_from
latest_from-slept answers = ground arith

latest_from-first :
    (answers : ℕ → Option Bool) (i left n : ℕ)
    → i ≤ n
    → n < i + left
    → answers n ≡ some true
    → ((j : ℕ) → i ≤ j → j < n → answers j ≡ none)
    → (latest_from answers i left).0 ≡ true
unfolding latest_from
latest_from-first answers i zero n lo hi found before = absurd (omega (arith, lo, hi))
latest_from-first answers i (suc left) n lo hi found before = elim (dec_lt i n) [
  | yes later ↦
      let fails = before i (omega arith) later in
      rw (fails, latest_from)
        (latest_from-first answers (suc i) left n (omega (arith, later)) (omega (arith, hi)) found
          (λ j lo' hi'. before j (omega (arith, lo')) hi'))
  | no here ↦ let same : i ≡ n = omega (arith, lo, here) in rw (same, found, latest_from) refl
]

-- With a url, a request sleeps three seconds at most, whatever the parser answers; and the service
-- counts as synchronised just if the parser says so in one of three attempts, the first that it
-- answers.
pub is_latest_block_number-asked :
    (url : Name) (answers : ℕ → Option Bool)
    → url ≢ 0
    → ((is_latest_block_number url answers).1 ≤ 3)
      × (((is_latest_block_number url answers).0 ≡ true)
          ↔ ((n : ℕ) × (n < 3) × (answers n ≡ some true) × ((j : ℕ) → j < n → answers j ≡ none)))
unfolding is_latest_block_number
is_latest_block_number-asked url answers set =
    let asked : (url == 0) ≡ false = ground arith in
    (
      rw asked (latest_from-slept answers),
      rw asked (
        λ e.
            let (n, lo, hi, found, before) = latest_from-answer answers 3 0 e in
            (n, hi, found, λ j below. before j (omega arith) below),
        λ (n, hi, found, before).
            latest_from-first answers 0 3 n (omega arith) (omega (arith, hi)) found
              (λ j lo below. before j below),
      ),
    )
