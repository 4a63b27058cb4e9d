-- ===== src/Tests.antt =====
-- Runs of the model at fixed inputs, and each theorem at an input that meets its hypotheses.
mod Data
mod Queue
mod Limiter
mod Idempotency
mod Route
mod Worker
mod Send
mod Json
mod Jsonl
mod Events
mod Suppression
