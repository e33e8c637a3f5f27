-- ===== src/Safeguards.antt =====
-- safeguards.py: what protects a run that costs credits.
pub mod Validation
pub mod Cost
pub mod Idempotency
