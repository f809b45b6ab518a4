-- ===== src/Service.antt =====
-- internal/service: the operations of CustomerService.
pub mod Mapper
pub mod Password
pub mod Security
pub mod Tokens
pub mod Accounts
pub mod Reset
pub mod Addresses
pub mod Orders
pub mod Attributes
