-- ===== src/Accounts.antt =====
-- accounts: institutions, financial accounts and fixed-term contracts, and the views that open them.
pub mod Models
pub mod FixedTerm
pub mod Forms
pub mod Views
