-- ===== src/BlockParser/Steps.antt =====
-- block_parser/block_parser.go: how far the number of the next block moves in one turn of the loop.
use das_register.Prelude.{
  ℕ, zero, suc, ◌+◌, ◌≤◌, ◌<◌, ◌^◌, Bool, true, false, Option, none, some, ◌≡◌, refl, ◌∙◌, ◌⊎◌, inl,
  inr, arith,
}
use das_register.Dao.Store.{World, Result, Done, ok, err}
use das_register.BlockParser.Tx.{Env, Block}
use das_register.BlockParser.Run.{
  Parse, u64, u64_sub, clean_up, record_block, stepped, fork_checked, with_block, check_fork,
  parser_sub_mode, parser_rounds, parser_concurrency_mode, choose_mode, by_mode, run_turn, Mode,
  concurrency, sub, idle,
}

-- The number that a run of the parser leaves.
abbrev pub number : Result Done × ℕ × World → ℕ
number (r, n, w) = n

-- The number stays, or it goes on by at most `most`, or it goes back by one, on uint64.
abbrev pub MovesBy : ℕ → ℕ → ℕ → Type 0
MovesBy most n m = ((k : ℕ) × (k ≤ most) × (m ≡ u64 (n + k))) ⊎ (m ≡ u64_sub n 1)

-- The number stays, or it goes on by at most `most`.
abbrev pub Forward : ℕ → ℕ → ℕ → Type 0
Forward most n m = (k : ℕ) × (k ≤ most) × (m ≡ u64 (n + k))

stays : (most n : ℕ) → n < 2 ^ 64 → Forward most n n
stays most n h = (0, omega arith, omega (arith, h))

later : (most n m : ℕ) → Forward most (u64 (n + 1)) m → Forward (suc most) n m
later most n m (k, bound, e) = (suc k, omega (arith, bound), e ∙ omega arith)

pub recorded_step :
    (n : ℕ) (q : Result Done × World) → n < 2 ^ 64 → Forward 1 n (number (stepped clean_up n q))
recorded_step n (ok _, w) h = (1, omega arith, refl)
recorded_step n (err e, w) h = stays 1 n h

fork_step :
    (env : Env) (block : Block) (n : ℕ) (p : Result Bool × World)
    → n < 2 ^ 64
    → MovesBy 1 n (number (fork_checked env block n p))
fork_step env block n (err e, w) h = inl (stays 1 n h)
fork_step env block n (ok true, w) h = inr refl
fork_step env block n (ok false, w) h = inl (recorded_step n (record_block env block n w) h)

block_step :
    (env : Env) (n : ℕ) (w : World) (b : Option Block)
    → n < 2 ^ 64
    → MovesBy 1 n (
        number (
          with_block b
            (λ block m w'. fork_checked env block m (check_fork m block.parent_hash w'))
            n
            w))
block_step env n w none h = inl (stays 1 n h)
block_step env n w (some block) h = fork_step env block n (check_fork n block.parent_hash w) h

round_step :
    (k : Parse) (most n : ℕ) (q : Result Done × World)
    → n < 2 ^ 64
    → ((m : ℕ) (w : World) → m < 2 ^ 64 → Forward most m (number (k m w)))
    → Forward (suc most) n (number (stepped k n q))
round_step k most n (ok _, w) h rest =
    later most n (number (k (u64 (n + 1)) w)) (rest (u64 (n + 1)) w (omega arith))
round_step k most n (err e, w) h rest = stays (suc most) n h

block_round :
    (env : Env) (k : Parse) (most n : ℕ) (w : World) (b : Option Block)
    → n < 2 ^ 64
    → ((m : ℕ) (w' : World) → m < 2 ^ 64 → Forward most m (number (k m w')))
    → Forward
        (suc most)
        n
        (number (with_block b (λ block m w'. stepped k m (record_block env block m w')) n w))
block_round env k most n w none h rest = stays (suc most) n h
block_round env k most n w (some block) h rest =
    round_step k most n (record_block env block n w) h rest

rounds_step :
    (env : Env) (rounds n : ℕ) (w : World)
    → n < 2 ^ 64
    → Forward rounds n (number (parser_rounds env rounds n w))
unfolding parser_rounds
rounds_step env zero n w h = stays zero n h
rounds_step env (suc rounds) n w h =
    block_round env (parser_rounds env rounds) rounds n w (env.get_block_by_number n) h
      (rounds_step env rounds)

-- What each mode does to the number: up to `c` blocks forward where many are parsed at once; one
-- forward or one back, or none, where one is; and none where the parser waits.
abbrev pub MovesIn : Mode → ℕ → ℕ → ℕ → Type 0
MovesIn concurrency c n m = Forward c n m
MovesIn sub c n m = MovesBy 1 n m
MovesIn idle c n m = m ≡ n

by_mode_step :
    (env : Env) (c : ℕ) (mode : Mode) (n : ℕ) (w : World)
    → n < 2 ^ 64
    → MovesIn mode c n (number (by_mode env c mode n w))
unfolding parser_sub_mode parser_concurrency_mode
by_mode_step env c concurrency n w h = rounds_step env c n w h
by_mode_step env c sub n w h = block_step env n w (env.get_block_by_number n) h
by_mode_step env c idle n w h = refl

-- One turn of the loop moves the number of the next block, on uint64, by its mode: by at most the
-- concurrency forward, and never back, where many blocks are parsed at once; by at most one, forward
-- or back, where one is; and not at all where the parser waits. Whatever the blocks are and whatever
-- fails.
pub run_turn-MovesIn :
    (env : Env) (concurrency_num confirm_num latest n : ℕ) (w : World)
    → n < 2 ^ 64
    → MovesIn
        (choose_mode concurrency_num confirm_num n latest)
        concurrency_num
        n
        (number (run_turn env concurrency_num confirm_num latest n w))
unfolding run_turn
run_turn-MovesIn env c f latest n w h = by_mode_step env c (choose_mode c f n latest) n w h
