-- ===== src/Diagnostics.antt =====
-- diagnostics/: the summary of the audit log.
pub mod Usage
