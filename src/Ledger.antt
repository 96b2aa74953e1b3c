-- ===== src/Ledger.antt =====
-- ledger: transactions with signed entries, their posting, deletion and balances.
pub mod Models
pub mod Interest
pub mod Services
pub mod History
pub mod Imports
pub mod Exports
pub mod Views
