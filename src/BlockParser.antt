-- ===== src/BlockParser.antt =====
-- block_parser/: the parser that follows the chain and moves the orders on.
pub mod Tx
pub mod Handlers
pub mod Run
pub mod Numbers
pub mod Steps
pub mod Forks
