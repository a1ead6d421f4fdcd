-- ===== src/Unipay.antt =====
-- unipay/: the payment service, its polls and its notices, and the prices of the pay tokens.
pub mod Token
pub mod Confirm
pub mod Refund
pub mod Rounding
pub mod Counts
pub mod Notices
pub mod Refunds
