-- ===== src/Bookings.antt =====
-- src/bookings/: bookings, their creation under a capacity, and their cancellation.
pub mod Repository
pub mod Service
pub mod Rows
pub mod Policy
pub mod Capacity
pub mod Retry
pub mod Oversell
pub mod Cancel
pub mod Races
pub mod Skeleton
pub mod Draft
