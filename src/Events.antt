-- ===== src/Events.antt =====
-- src/events/: events behind a cache-aside Redis cache.
pub mod Cache
pub mod Table
pub mod Repository
pub mod Service
pub mod Fresh
pub mod Reads
pub mod Lists
pub mod Guard
pub mod Modify
pub mod Writes
pub mod Order
pub mod Paging
pub mod Creation
pub mod Runs
pub mod Memory
pub mod Stale
pub mod Flights
