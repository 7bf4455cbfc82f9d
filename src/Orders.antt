-- ===== src/Orders.antt =====
-- app/features/orders/service.py: pricing, stock movements, order numbers and status transitions.
pub mod Pricing
pub mod Number
pub mod Stock
pub mod Admission
pub mod Create
pub mod Status
pub mod Histories
pub mod Overlap
pub mod Listing
