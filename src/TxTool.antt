-- ===== src/TxTool.antt =====
-- txtool/: the transactions that the service sends to the chain.
pub mod Register
pub mod Sends
