-- ===== src/Tests.antt =====
-- Runs of the models on fixed inputs, and the theorems at concrete ones.
mod Data
mod Posting
mod Trading
mod Reporting
mod Taxes
mod Histories
mod Files
mod Opening
