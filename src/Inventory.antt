-- ===== src/Inventory.antt =====
-- services/inventory-service: reservations of stock, try, confirm and cancel.
pub mod Types
pub mod Contract
pub mod Normalize
pub mod Memory
pub mod Postgres
