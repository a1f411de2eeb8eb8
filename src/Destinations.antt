-- ===== src/Destinations.antt =====
-- src/malc/destinations.c: the destinations of the entries, their severities and the rate filter.
pub mod Types
pub mod Loops
pub mod Flushed
pub mod State
pub mod RateFilter
pub mod Severity
