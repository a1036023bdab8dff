-- ===== src/Tests.antt =====
-- Runs of the model at concrete inputs, and the theorems applied there.
mod WalletTests
mod OrderTests
mod JobTests
mod PollingTests
mod AuthTests
mod ConsumerTests
mod CatalogTests
mod AdminTests
mod HttpTests
