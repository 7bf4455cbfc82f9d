-- ===== src/Tests.antt =====
-- Concrete runs: a small shop, and the theorems applied to it.
mod Shop
mod Texts
mod Checkout
mod Webhook
mod Panel
mod Catalogue
mod Accounts
mod Desk
