-- ===== src/Tests.antt =====
-- Runs on concrete inputs, and the properties at inputs that meet their hypotheses.
mod Demo
mod Bookings
mod Auth
mod Draft
mod Events
mod Infra
mod Venues
mod Http
mod Seed
mod Jobs
mod Routes
mod Cookies
mod Sessions
mod Pages
mod Throttle
