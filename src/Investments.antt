-- ===== src/Investments.antt =====
-- investments: securities, prices, trades and what is derived from them.
pub mod Models
pub mod Holdings
pub mod CostBasis
pub mod Pricing
pub mod Posting
pub mod Valuation
pub mod Views
