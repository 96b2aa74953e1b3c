-- ===== src/Tax.antt =====
-- tax: treatments of returns, tax years, and the yearly estimate.
pub mod Models
pub mod Checks
pub mod Years
pub mod Items
pub mod Returns
pub mod Aggregation
pub mod Views
