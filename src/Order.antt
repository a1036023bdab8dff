-- ===== src/Order.antt =====
-- Orders (modules/billing/services/order.service.ts and its repositories).
pub mod Entities
pub mod Repository
pub mod Service
pub mod Held
pub mod Placing
pub mod Refunds
pub mod Races
pub mod RoundTrip
pub mod Reads
pub mod Products
pub mod Sellable
pub mod Catalog
