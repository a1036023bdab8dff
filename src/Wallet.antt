-- ===== src/Wallet.antt =====
-- The point wallet (modules/point, common/repositories, database/entities/wallet-*.entity.ts).
pub mod Entities
pub mod Repository
pub mod Service
pub mod Balance
pub mod Loop
pub mod Fifo
pub mod Valid
pub mod Debit
pub mod Columns
pub mod Queue
pub mod Credit
pub mod Idempotency
pub mod Retries
pub mod Coverage
pub mod Reach
pub mod Calls
pub mod Expiry
pub mod Reads
pub mod Facade
