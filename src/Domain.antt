-- ===== src/Domain.antt =====
-- internal/domain: the values of the program, validated when they are made.
pub mod Oid
pub mod Object
pub mod Repository
pub mod Operation
pub mod User
pub mod Policy
pub mod Redirect
pub mod Shell
