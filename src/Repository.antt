-- ===== src/Repository.antt =====
-- internal/repository: each statement as a function on the tables, each method as an action.
pub mod Sql
pub mod Customer
pub mod Password
pub mod Address
pub mod Token
pub mod Newsletter
pub mod Cache
pub mod Wishlist
pub mod Attributes
pub mod Orders
