-- ===== src/Tests.antt =====
-- Runs of the model at concrete inputs, for the theorems with conditions.
mod Numbers
mod Codes
mod Vin
mod Adapters
mod Driver
mod Scans
mod Readings
mod Diagnoses
mod Explain
mod Bay
mod Accounts
mod Enrichment
mod Sessions
mod Decodes
mod Tokens
