-- ===== src/Http.antt =====
-- The HTTP layer: authentication, the handlers of bookings, and the error handler of src/app.ts.
pub mod Validate
pub mod Cookies
pub mod Jar
pub mod Reserve
pub mod Throttle
pub mod Sessions
pub mod Renewal
pub mod Respond
pub mod Access
pub mod Bookings
pub mod Events
pub mod Guarded
pub mod Rights
pub mod Writers
pub mod Venues
pub mod Openings
