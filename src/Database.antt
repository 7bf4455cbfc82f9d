-- ===== src/Database.antt =====
-- The tables (the `models.py` of each feature) and the session of a request (app/core/database.py).
pub mod Models
pub mod Session
pub mod Keys
