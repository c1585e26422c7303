-- ===== src/Venues.antt =====
-- src/venues/: venues, whose names are unique.
pub mod Table
pub mod Service
pub mod Names
pub mod Changes
pub mod Memory
