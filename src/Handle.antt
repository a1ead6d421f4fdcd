-- ===== src/Handle.antt =====
-- http_server/handle: the handlers of orders, of the search of an account and of gift cards. The
-- requests of other services and the configuration are a `Service`; a handler runs on a `Site`.
pub mod Reply
pub mod Service
pub mod Text
pub mod Coupon
pub mod Search
pub mod Amounts
pub mod Place
pub mod Register
pub mod Change
pub mod InternalOrder
pub mod Account
pub mod Requests
pub mod Rules
pub mod Reads
pub mod Ends
pub mod Closes
pub mod Errors
pub mod Done
pub mod Stored
pub mod Free
pub mod Accepted
pub mod Changed
pub mod Renewed
pub mod Lookup
pub mod Cards
pub mod Locks
pub mod Limits
pub mod Sendable
