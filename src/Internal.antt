-- ===== src/Internal.antt =====
-- internal/internal.go and internal/rpc_retry.go: requests to the parser and to the node that are
-- repeated when they fail. The answers are a schedule: `answers i` is what attempt `i` returns, and
-- `none` its error. Durations are whole nanoseconds below 2 ^ 53, which a `float64` holds exactly.
pub mod Bounds
use das_register.Prelude.{
  ℕ, zero, suc, ◌+◌, ◌*◌, ◌^◌, Bool, true, false, Option, none, some, List, [], ◌∷◌, ltb, leb,
  nat_coded, ◌==◌, if◌then◌else◌,
}
use das_register.Tables.Names.{Name}

-- The calls made, the nanoseconds waited after each that failed, and how the loop ended.
pub data Ending (A : Type 0) : Type 0 where
  answered : A → Ending A
  cancelled exhausted : Ending A

pub record Attempts (A : Type 0) : Type 0 where
  pub calls : ℕ
  pub waits : List ℕ
  pub ending : Ending A

-- `RetryConfig`
pub record RetryConfig : Type 0 where
  pub max_retries : ℕ
  pub initial_delay : ℕ
  pub max_backoff : ℕ

-- `DefaultRetryConfig`
abbrev pub default_retry_config : RetryConfig
default_retry_config = record {
  max_retries = 3;
  initial_delay = 1000000000;
  max_backoff = 30000000000;
}

-- `calculateBackoff`
unfoldable pub calculate_backoff : ℕ → RetryConfig → ℕ
calculate_backoff attempt config =
    let backoff = config.initial_delay * 2 ^ attempt in
    if ltb config.max_backoff backoff then config.max_backoff else backoff

-- One failed attempt: its call and its wait are counted before those that follow.
abbrev pub after_wait : {A : Type 0} → ℕ → Attempts A → Attempts A
after_wait backoff rest = record rest { calls = suc rest.calls; waits = backoff ∷ rest.waits }

-- The `select`: when the context ends within the wait. If both end at once, the context is taken first.
abbrev pub cut_off : ℕ → Option ℕ → Option ℕ
cut_off backoff none = none
cut_off backoff (some time) = if leb time backoff then some time else none

-- The loop of `GetTipBlockNumberWithRetry`, `GetBlockByNumberWithRetry` and
-- `GetTransactionWithRetry` from attempt `i` with `left` attempts to go. `ends i` says when the
-- context ends, in nanoseconds from the start of the wait after attempt `i`: 0 if it had ended before,
-- and `none` if it goes on.
unfoldable pub retry_from :
    {A : Type 0} → RetryConfig → (ℕ → Option A) → (ℕ → Option ℕ) → ℕ → ℕ → Attempts A
unfolding calculate_backoff
retry_from config answers ends i zero = record { calls = 0; waits = []; ending = exhausted }
retry_from config answers ends i (suc left) =
    let rest = retry_from config answers ends (suc i) left in
    elim (answers i) [
      | some a ↦ record { calls = 1; waits = []; ending = answered a }
      | none ↦ elim (cut_off (calculate_backoff i config) (ends i)) [
        | some time ↦ record { calls = 1; waits = time ∷ []; ending = cancelled }
        | none ↦ after_wait (calculate_backoff i config) rest
      ]
    ]

unfoldable pub with_retry :
    {A : Type 0} → RetryConfig → (ℕ → Option A) → (ℕ → Option ℕ) → Attempts A
unfolding retry_from
with_retry config answers ends = retry_from config answers ends 0 config.max_retries

-- The loop of `IsLatestBlockNumber` from attempt `i`: what it returns, and the seconds it slept.
unfoldable pub latest_from : (ℕ → Option Bool) → ℕ → ℕ → Bool × ℕ
latest_from answers i zero = (false, 0)
latest_from answers i (suc left) =
    let (result, slept) = latest_from answers (suc i) left in
    elim (answers i) [
      | some is_latest ↦ (is_latest, 0)
      | none ↦ (result, (if ltb i 2 then suc i else 0) + slept)
    ]

-- `IsLatestBlockNumber`: an empty url is not asked.
unfoldable pub is_latest_block_number : Name → (ℕ → Option Bool) → Bool × ℕ
unfolding latest_from
is_latest_block_number url answers = if url == 0 then (true, 0) else latest_from answers 0 3
