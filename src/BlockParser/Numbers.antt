-- ===== src/BlockParser/Numbers.antt =====
-- block_parser/block_parser.go: the number of the next block, and the window of blocks that are kept.
use das_register.Prelude.{
  ℕ, ◌+◌, ◌-◌, ◌^◌, ◌≤◌, ◌<◌, Bool, false, List, [], ◌∷◌, ◌≡◌, refl, not, nat_coded, ltb, leb,
  filter, All, arith, if◌then◌else◌, ap,
}
use das_register.Tables.Rest.{BlockInfo}
use das_register.Dao.Store.{Call, Db, ok, exec}
use das_register.Dao.Others.{delete_block_info}
use das_register.BlockParser.Run.{u64_sub, clean_up, choose_mode, sub, idle}

pub u64_sub-le : (a b : ℕ) → b ≤ a → a < 2 ^ 64 → u64_sub a b ≡ a - b
u64_sub-le a b h k = omega (arith, h, k)

u64_sub-wrap : (a b : ℕ) → a < b → b < 2 ^ 64 → u64_sub a b ≡ a + 2 ^ 64 - b
u64_sub-wrap a b h k = omega (arith, h, k)

by_32 : (n : ℕ) → n < 2 ^ 32 → n < 2 ^ 64
by_32 n h = omega (arith, h)

filter-none :
    (p : BlockInfo → Bool) (rows : List BlockInfo)
    → All (λ b. p b ≡ false) rows
    → filter p rows ≡ []
filter-none p [] h = refl
filter-none p (b ∷ rows) (e, h) = rw (e, filter-none p rows h) refl

-- One block at a time and `confirm_num` blocks behind: the parser takes the block exactly if it is
-- deep enough, on a chain of at least `confirm_num` blocks.
pub choose_mode-sub :
    (confirm_num current latest : ℕ)
    → confirm_num ≤ latest
    → latest < 2 ^ 64
    → choose_mode 1 confirm_num current latest
      ≡ (if ltb (current + confirm_num) latest then sub else idle)
unfolding choose_mode
choose_mode-sub confirm_num current latest h k =
    rw (u64_sub-le latest confirm_num h k) (ground (arith, h))

-- When the chain is shorter than `confirm_num` the subtraction wraps around, and the parser, one block
-- at a time, takes blocks that are not confirmed; the numbers are below 2^32.
pub choose_mode-wrapped :
    (confirm_num current latest : ℕ)
    → latest < confirm_num
    → confirm_num < 2 ^ 32
    → current < 2 ^ 32
    → choose_mode 1 confirm_num current latest ≡ sub
unfolding choose_mode
choose_mode-wrapped confirm_num current latest h k m =
    rw (u64_sub-wrap latest confirm_num h (by_32 confirm_num k)) (ground (arith, h, k, m))

-- `ltb b n` is false of the numbers below the wrapped bound.
below_wrapped : (b n : ℕ) → n < 20 → b < 2 ^ 64 - 20 → not (ltb b (n + 2 ^ 64 - 20)) ≡ false
below_wrapped b n h k = ground (arith, h, k)

rows_below :
    (n : ℕ) (rows : List BlockInfo)
    → n < 20
    → All (λ b. b.block_number < 2 ^ 64 - 20) rows
    → All (λ b. not (ltb b.block_number (n + 2 ^ 64 - 20)) ≡ false) rows
rows_below n [] h k = tt
rows_below n (b ∷ rows) h (k, ks) = (below_wrapped b.block_number n h k, rows_below n rows h ks)

-- While the number of the next block is below 20, the clean-up after a block, if it meets no fault,
-- deletes every block that was recorded with a number below 2^64 - 20: its bound wraps around.
pub clean_up-wrapped :
    (n : ℕ) (db : Db) (sent : List Call)
    → n < 20
    → All (λ b. b.block_number < 2 ^ 64 - 20) db.blocks
    → clean_up n (record { db = db; faults = []; sent = sent })
      ≡ (ok tt, n, record { db = record db { blocks = [] }; faults = []; sent = sent })
unfolding delete_block_info exec
clean_up-wrapped n db sent h k =
    rw (u64_sub-wrap n 20 h (omega arith), filter-none _ db.blocks (rows_below n db.blocks h k))
      refl

within : (b n : ℕ) → 20 ≤ n → not (ltb b (n - 20)) ≡ leb n (b + 20)
within b n h = ground (arith, h)

filter_eq :
    (p q : BlockInfo → Bool)
    → ((b : BlockInfo) → p b ≡ q b)
    → (rows : List BlockInfo) → filter p rows ≡ filter q rows
filter_eq p q same [] = refl
filter_eq p q same (b ∷ rows) = rw (same b, filter_eq p q same rows) refl

-- From 20 on, and with no fault, what is kept are exactly the blocks with a number of at most twenty
-- before the next one.
pub clean_up_lem :
    (n : ℕ) (db : Db) (sent : List Call)
    → 20 ≤ n
    → n < 2 ^ 64
    → clean_up n (record { db = db; faults = []; sent = sent }) ≡ (
      ok tt,
      n,
      record {
        db = record db { blocks = filter (λ b. leb n (b.block_number + 20)) db.blocks };
        faults = [];
        sent = sent;
      },
    )
unfolding delete_block_info exec
clean_up_lem n db sent h k = rw (u64_sub-le n 20 h k) (
    ap (λ rows. (ok tt, n, record { db = record db { blocks = rows }; faults = []; sent = sent }))
      (filter_eq _ _ (λ b. within b.block_number n h) db.blocks))
