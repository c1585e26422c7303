-- ===== src/Jobs.antt =====
-- src/jobs/ and src/worker.ts: the background jobs; and the demo in scripts/.
pub mod Demo
pub mod Shown
pub mod Seats
pub mod Walk
pub mod Ends
pub mod Promote
pub mod Outcome
pub mod Worker
pub mod Handover
pub mod Accepted
pub mod Mail
