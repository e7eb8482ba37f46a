-- ===== src/Security.antt =====
-- The validation of values at the boundaries that store them (security/).
pub mod Email
pub mod TagName
pub mod Probe
