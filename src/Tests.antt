-- ===== src/Tests.antt =====
-- The theorems at concrete inputs: a shop with one store, three accounts and three addresses.
mod Tables
mod Data
mod Logins
mod Resets
mod Accounts
mod Addresses
mod Texts
mod Wishlists
mod Statements
mod Listing
mod Attributes
mod History
