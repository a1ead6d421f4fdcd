-- ===== src/BlockParser/Forks.antt =====
-- block_parser/block_parser.go: when `parserSubMode` takes a step back.
use das_register.Prelude.{
  ℕ, ◌-◌, ◌^◌, ◌≤◌, ◌<◌, Bool, true, false, Option, none, some, List, [], ◌∷◌, ◌≡◌, refl, sym, ap,
  ◌∙◌, ◌==◌, nat_coded, arith, inl, inr, Bool-cases, not,
}
use das_register.Tables.Names.{Name}
use das_register.Tables.Rest.{BlockInfo}
use das_register.Dao.Store.{World, Db, Call, ok, err, Error, query, is_faulty, later_faults}
use das_register.Dao.Others.{find_block_info_by_block_number, block_at}
use das_register.BlockParser.Tx.{Env, Block}
use das_register.BlockParser.Run.{
  fork_checked, with_block, check_fork, is_other_hash, record_block, parser_sub_mode,
}
use das_register.BlockParser.Numbers.{u64_sub-le}
use das_register.BlockParser.Steps.{number, Forward, recorded_step}

-- The block `n` is there, the one before it was recorded and can be read, and it is not the parent.
abbrev pub Forked : Env → ℕ → World → Type 0
Forked env n w =
    (block : Block) × (parent : BlockInfo) × (env.get_block_by_number n ≡ some block)
    × (is_faulty w.faults ≡ false)
    × (block_at (n - 1) w.db.blocks ≡ some parent)
    × (parent.block_hash == block.parent_hash ≡ false)

-- One statement of the schedule is used up.
abbrev pub after_read : World → World
after_read w = record w { faults = later_faults w.faults }

no_way_back : (n m : ℕ) → 1 ≤ n → n < 2 ^ 64 → Forward 1 n m → m ≡ n - 1 → ⊥
no_way_back n m lo hi (k, bound, e) back = omega (arith, lo, hi, bound, e, back)

check_fork-read :
    (n : ℕ) (parent_hash : Name) (w : World)
    → 1 ≤ n
    → n < 2 ^ 64
    → is_faulty w.faults ≡ false
    → check_fork n parent_hash w
      ≡ (ok (is_other_hash (block_at (n - 1) w.db.blocks) parent_hash), after_read w)
unfolding check_fork find_block_info_by_block_number query
check_fork-read n parent_hash w lo hi = by_fault w.db w.sent w.faults
  where
    by_fault :
        (db : Db) (sent : List Call) (faults : List Bool)
        → is_faulty faults ≡ false
        → check_fork n parent_hash (record { db = db; faults = faults; sent = sent }) ≡ (
          ok (is_other_hash (block_at (n - 1) db.blocks) parent_hash),
          record { db = db; faults = later_faults faults; sent = sent },
        )
    by_fault db sent [] e = rw (u64_sub-le n 1 lo hi) refl
    by_fault db sent (false ∷ rest) e = rw (u64_sub-le n 1 lo hi) refl
    by_fault db sent (true ∷ rest) e = absurd (ground (arith, e))

check_fork-unread :
    (n : ℕ) (parent_hash : Name) (w : World)
    → is_faulty w.faults ≡ true
    → check_fork n parent_hash w ≡ (err Error.db_error, after_read w)
unfolding check_fork find_block_info_by_block_number query
check_fork-unread n parent_hash w = by_fault w.db w.sent w.faults
  where
    by_fault :
        (db : Db) (sent : List Call) (faults : List Bool)
        → is_faulty faults ≡ true
        → check_fork n parent_hash (record { db = db; faults = faults; sent = sent })
          ≡ (err Error.db_error, record { db = db; faults = later_faults faults; sent = sent })
    by_fault db sent [] e = absurd (ground (arith, e))
    by_fault db sent (false ∷ rest) e = absurd (ground (arith, e))
    by_fault db sent (true ∷ rest) e = refl

-- A block whose predecessor is not there or is its parent is parsed, and the number is not less.
checked-Forked :
    (env : Env) (n : ℕ) (w : World) (block : Block) (found : Option BlockInfo)
    → 1 ≤ n
    → n < 2 ^ 64
    → env.get_block_by_number n ≡ some block
    → is_faulty w.faults ≡ false
    → block_at (n - 1) w.db.blocks ≡ found
    → number (fork_checked env block n (ok (is_other_hash found block.parent_hash), after_read w))
      ≡ n - 1
    → Forked env n w
checked-Forked env n w block none lo hi here read there back =
    absurd
      (no_way_back n _ lo hi (recorded_step n (record_block env block n (after_read w)) hi) back)
checked-Forked env n w block (some parent) lo hi here read there back =
    elim (Bool-cases (parent.block_hash == block.parent_hash)) [
      | inr other ↦ (block, parent, here, read, there, other)
      | inl same ↦ absurd (
          no_way_back n _ lo hi (recorded_step n (record_block env block n (after_read w)) hi) (
            ap (λ b. number (fork_checked env block n (ok (not b), after_read w))) (sym same)
            ∙ back))
    ]

block-Forked :
    (env : Env) (n : ℕ) (w : World) (block : Block)
    → 1 ≤ n
    → n < 2 ^ 64
    → env.get_block_by_number n ≡ some block
    → number (fork_checked env block n (check_fork n block.parent_hash w)) ≡ n - 1
    → Forked env n w
block-Forked env n w block lo hi here back = elim (Bool-cases (is_faulty w.faults)) [
  | inl faulty ↦ absurd (
      no_way_back n n lo hi (0, omega arith, omega (arith, hi))
        (sym (
            ap (λ q. number (fork_checked env block n q))
              (check_fork-unread n block.parent_hash w faulty))
          ∙ back))
  | inr read ↦ checked-Forked env n w block (block_at (n - 1) w.db.blocks) lo hi here read refl (
      sym (
        ap (λ q. number (fork_checked env block n q))
          (check_fork-read n block.parent_hash w lo hi read))
      ∙ back)
]

sub_run :
    (env : Env) (n : ℕ) (w : World) (b : Option Block)
    → env.get_block_by_number n ≡ b
    → parser_sub_mode env n w
      ≡ with_block b
          (λ block m w'. fork_checked env block m (check_fork m block.parent_hash w'))
          n
          w
unfolding parser_sub_mode
sub_run env n w b e = rw e refl

back_by :
    (env : Env) (n : ℕ) (w : World) (b : Option Block)
    → 1 ≤ n
    → n < 2 ^ 64
    → env.get_block_by_number n ≡ b
    → number (parser_sub_mode env n w) ≡ n - 1
    → Forked env n w
back_by env n w none lo hi here back = absurd (
    no_way_back n n lo hi (0, omega arith, omega (arith, hi))
      (sym (ap number (sub_run env n w none here)) ∙ back))
back_by env n w (some block) lo hi here back =
    block-Forked env n w block lo hi here
      (sym (ap number (sub_run env n w (some block) here)) ∙ back)

-- The parser of one block takes a step back just if the block is there, the one recorded before it
-- can be read, and that one is not its parent; and a step back, which is to the number before, is no
-- error and changes nothing. Whatever the blocks are and whatever fails, for uint64
-- numbers from 1 on.
pub parser_sub_mode-Forked :
    (env : Env) (n : ℕ) (w : World)
    → 1 ≤ n
    → n < 2 ^ 64
    → (number (parser_sub_mode env n w) ≡ n - 1 → Forked env n w)
      × (Forked env n w → parser_sub_mode env n w ≡ (ok tt, n - 1, after_read w))
parser_sub_mode-Forked env n w lo hi = (
  back_by env n w (env.get_block_by_number n) lo hi refl,
  λ (block, parent, here, read, there, other).
      sub_run env n w (some block) here
      ∙ rw (check_fork-read n block.parent_hash w lo hi read, there, other)
          (rw (u64_sub-le n 1 lo hi) refl),
)
