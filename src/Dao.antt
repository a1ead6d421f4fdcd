-- ===== src/Dao.antt =====
-- dao/: the queries and updates of the service's database.
pub mod Store
pub mod Rows
pub mod Orders
pub mod Payments
pub mod Others
pub mod Queries
pub mod Latest
pub mod Keeps
pub mod Proposals
pub mod Rejections
pub mod Repeats
