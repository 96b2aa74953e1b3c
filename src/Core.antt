-- ===== src/Core.antt =====
-- core: currencies, manually entered exchange rates (core/models.py), and their services.
pub mod Models
pub mod Ordering
pub mod Fx
pub mod Calendar
