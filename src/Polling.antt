-- ===== src/Polling.antt =====
-- The polling of source queues (modules/job/services/multi-queue-polling.service.ts).
pub mod Entities
pub mod Transform
pub mod Service
pub mod Delivery
pub mod Messages
