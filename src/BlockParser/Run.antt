-- ===== src/BlockParser/Run.antt =====
-- block_parser/block_parser.go: the loop that follows the chain. The number of the next block is a
-- uint64, and it comes back beside the state of the database.
use das_register.Prelude.{
  ℕ, zero, suc, ◌+◌, ◌-◌, ◌%◌, ◌^◌, Bool, true, false, Option, none, some, not, ◌&&◌, ltb,
  nat_coded, ◌==◌, if◌then◌else◌,
}
use das_register.Tables.Names.{Name}
use das_register.Tables.Rest.{BlockInfo}
use das_register.Dao.Store.{Done, Exec, Result, ok, err, Error, World, pure, ◌>>=◌, ◌>>◌, for_each}
use das_register.Dao.Others.{
  find_block_info, find_block_info_by_block_number, create_block_info, delete_block_info,
}
use das_register.TxTool.Register.{from_result}
use das_register.BlockParser.Tx.{Tx, Block, Env}
use das_register.BlockParser.Handlers.{handle}

abbrev pub u64 : ℕ → ℕ
u64 n = n % 2 ^ 64

-- a - b on uint64
abbrev pub u64_sub : ℕ → ℕ → ℕ
u64_sub a b = u64 (a + 2 ^ 64 - b)

abbrev handle_tx : Env → Block → Tx → Exec Done
handle_tx env block tx = elim tx.action [
  | none ↦ pure tt
  | some action ↦ handle env action (record {
    tx = tx;
    block_number = block.number;
    block_timestamp = block.timestamp;
    action = action;
  })
]

unfoldable pub parsing_block_data : Env → Block → Exec Done
unfolding for_each handle
parsing_block_data env block = do
  from_result env.check_contract_version
  for_each (handle_tx env block) block.transactions

abbrev pub is_other_hash : Option BlockInfo → Name → Bool
is_other_hash none parent_hash = false
is_other_hash (some block) parent_hash = not (block.block_hash == parent_hash)

unfoldable pub check_fork : ℕ → Name → Exec Bool
check_fork current parent_hash = do
  block ← find_block_info_by_block_number (u64_sub current 1)
  pure (is_other_hash block parent_hash)

-- The number of the next block is part of the state: it is returned with the result and the world.
abbrev pub Parse : Type 0
Parse = ℕ → World → Result Done × ℕ × World

abbrev at_number : ℕ → Result Done × World → Result Done × ℕ × World
at_number n (r, w) = (r, n, w)

-- `DeleteBlockInfo` comes after the step to the next number, so its error leaves the number stepped.
abbrev pub clean_up : Parse
clean_up n w = at_number n (delete_block_info (u64_sub n 20) w)

abbrev pub record_block : Env → Block → ℕ → Exec Done
record_block env block current = do
  parsing_block_data env block
  create_block_info current block.hash block.parent_hash

abbrev pub stepped : Parse → ℕ → Result Done × World → Result Done × ℕ × World
stepped k current (ok _, w) = k (u64 (current + 1)) w
stepped k current (err e, w) = (err e, current, w)

abbrev pub fork_checked : Env → Block → ℕ → Result Bool × World → Result Done × ℕ × World
fork_checked env block current (err e, w) = (err e, current, w)
fork_checked env block current (ok true, w) = (ok tt, u64_sub current 1, w)
fork_checked env block current (ok false, w) =
    stepped clean_up current (record_block env block current w)

abbrev pub with_block : Option Block → (Block → Parse) → Parse
with_block none k current w = (err Error.chain_error, current, w)
with_block (some block) k current w = k block current w

unfoldable pub parser_sub_mode : Env → Parse
unfolding parsing_block_data check_fork
parser_sub_mode env current w =
    with_block (env.get_block_by_number current)
      (λ block n w'. fork_checked env block n (check_fork n block.parent_hash w')) current w

-- The rounds of `parserConcurrencyMode`, which does not look for a fork; `rounds` counts those left.
unfoldable pub parser_rounds : Env → ℕ → Parse
unfolding parsing_block_data
parser_rounds env zero current w = clean_up current w
parser_rounds env (suc rounds) current w =
    with_block (env.get_block_by_number current)
      (λ block n w'. stepped (parser_rounds env rounds) n (record_block env block n w')) current w

unfoldable pub parser_concurrency_mode : Env → ℕ → Parse
unfolding parser_rounds
parser_concurrency_mode env concurrency_num current w = parser_rounds env concurrency_num current w

-- What one turn of the loop in `Run` does once it has the latest block number.
pub data Mode : Type 0 where
  concurrency sub idle : Mode

-- All of it is uint64 arithmetic.
unfoldable pub choose_mode : ℕ → ℕ → ℕ → ℕ → Mode
choose_mode concurrency_num confirm_num current latest =
    if ltb 1 concurrency_num && ltb current (u64_sub (u64_sub latest confirm_num) concurrency_num)
    then concurrency
    else if ltb current (u64_sub latest confirm_num)
    then sub
    else idle

abbrev pub by_mode : Env → ℕ → Mode → Parse
by_mode env concurrency_num concurrency = parser_concurrency_mode env concurrency_num
by_mode env concurrency_num sub = parser_sub_mode env
by_mode env concurrency_num idle = λ current w. (ok tt, current, w)

unfoldable pub run_turn : Env → ℕ → ℕ → ℕ → Parse
unfolding choose_mode parser_sub_mode parser_concurrency_mode
run_turn env concurrency_num confirm_num latest current w =
    by_mode env concurrency_num (choose_mode concurrency_num confirm_num current latest) current w

-- `initCurrentBlockNumber`, from the number that the configuration gives and the tip of the chain;
-- a row with an id is a row that was found.
abbrev start_at : ℕ → ℕ → Option BlockInfo → ℕ
start_at current tip (some block) = block.block_number
start_at current tip none = if current == 0 && ltb 0 tip then tip else current

-- The start of `Run`: the block after the one that is there.
unfoldable init_current_block_number : ℕ → ℕ → Exec ℕ
init_current_block_number current tip = do
  block ← find_block_info
  pure (u64 (start_at current tip block + 1))

-- The first answer among those of at most `max_retries` calls; the waits between them are left out.
unfoldable get_tip_block_number_with_retry : ℕ → (ℕ → Option ℕ) → ℕ → Option ℕ
get_tip_block_number_with_retry zero call i = none
get_tip_block_number_with_retry (suc left) call i =
    let rest = get_tip_block_number_with_retry left call (suc i) in
    elim (call i) [ some n ↦ some n | none ↦ rest ]

-- The seconds that the retry loop waits after the attempt `i`.
unfoldable backoff_seconds : ℕ → ℕ
backoff_seconds i = if ltb 30 (2 ^ i) then 30 else 2 ^ i
