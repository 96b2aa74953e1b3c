-- ===== src/Tax/Aggregation.antt =====
-- tax/services/aggregation.py: the yearly estimate from the actual events.
pub mod Models
pub mod Collect
pub mod Items
pub mod Reductions
pub mod Build
