-- ===== src/Logistics.antt =====
-- services/logistics-service: shipments, their states and their events.
pub mod Status
pub mod Trail
pub mod Request
pub mod Memory
pub mod Postgres
mod Tests
