-- ===== src/Job/Backoff.antt =====
-- The delay before a retry (JobService.calculateNextRetry): exponential, capped at a day.
