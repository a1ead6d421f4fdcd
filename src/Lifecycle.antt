-- ===== src/Lifecycle.antt =====
-- The life of the rows of the order tables, over every write that the service makes.
pub mod Writes
pub mod Grows
pub mod Rows
pub mod Statements
pub mod Progress
pub mod Chain
pub mod Timers
pub mod Payments
pub mod Sending
pub mod Parsing
pub mod Requests
pub mod Jobs
