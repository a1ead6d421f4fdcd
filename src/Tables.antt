-- ===== src/Tables.antt =====
-- tables/: the rows of the service's tables.
pub mod Names
pub mod Order
pub mod Pay
pub mod Rest
